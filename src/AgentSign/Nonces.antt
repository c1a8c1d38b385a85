-- ===== src/AgentSign/Nonces.antt =====
-- internal/agentsign/agentsign.go: the cache of nonces that have been seen. A time is a number of
-- nanoseconds. `now.Sub(t) > d` is `d < now - t`, on ℕ too, since a duration below zero never
-- passes a bound that is not negative.
pub mod Laws
use berth_agent.Prelude.{
  ℕ, ◌-◌, Bool, true, false, Option, none, some, List, [], ◌∷◌, Text, text_eq, ltb, if◌then◌else◌,
}

pub record NonceCache : Type 0 where
  pub seen : List (Text × ℕ)
  pub retain : ℕ
  pub swept : ℕ

-- newNonceCache, at the time `now`
pub new_nonce_cache : ℕ → ℕ → NonceCache
new_nonce_cache retain now = record { seen = []; retain = retain; swept = now }

-- c.seen[nonce]
pub seen_at : Text → List (Text × ℕ) → Option ℕ
seen_at nonce [] = none
seen_at nonce ((value, at) ∷ seen) = if text_eq value nonce then some at else seen_at nonce seen

-- The loop over `c.seen` that deletes what is older than `retain`.
sweep : ℕ → ℕ → List (Text × ℕ) → List (Text × ℕ)
sweep retain now [] = []
sweep retain now ((value, at) ∷ seen) =
    let rest = sweep retain now seen in if ltb retain (now - at) then rest else (value, at) ∷ rest

-- The first test of `admit`, and what it does.
swept_cache : NonceCache → ℕ → NonceCache
unfolding sweep
swept_cache c now =
    if ltb c.retain (now - c.swept)
    then record c { seen = sweep c.retain now c.seen; swept = now }
    else c

record_nonce : NonceCache → Text → ℕ → Option ℕ → NonceCache × Bool
record_nonce c nonce now (some _) = (c, false)
record_nonce c nonce now none = (record c { seen = (nonce, now) ∷ c.seen }, true)

unfoldable pub admit : NonceCache → Text → ℕ → NonceCache × Bool
unfolding swept_cache seen_at record_nonce
admit c nonce now = let c' = swept_cache c now in record_nonce c' nonce now (seen_at nonce c'.seen)
