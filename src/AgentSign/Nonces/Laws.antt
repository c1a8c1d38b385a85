-- ===== src/AgentSign/Nonces/Laws.antt =====
-- What the nonce cache remembers.
use berth_agent.AgentSign.Nonces.{
  true, false, some, List, Text, NonceCache, seen_at, sweep, swept_cache, record_nonce, admit,
}
use berth_agent.Prelude.{inr, text_eq_iff, inl, Option-cases, [], ◌∷◌, ◌+◌, arith, ◌≤◌, ℕ, ◌≡◌}

-- Sweeping drops no entry whose age is within `retain`.
seen_at-sweep :
    (retain now : ℕ) (nonce : Text) (seen : List (Text × ℕ)) (at : ℕ)
    → now ≤ at + retain
    → seen_at nonce seen ≡ some at
    → seen_at nonce (sweep retain now seen) ≡ some at
unfolding seen_at sweep
seen_at-sweep retain now nonce [] at h e = e
seen_at-sweep retain now nonce ((value, t) ∷ seen) at h e =
    ground (arith, seen_at-sweep retain now nonce seen at)

pub retain-admit :
    (c : NonceCache) (nonce : Text) (now : ℕ) → (admit c nonce now).0.retain ≡ c.retain
unfolding admit
retain-admit c nonce now = ground arith

seen_at-record_nonce :
    (c : NonceCache) (nonce other : Text) (at now : ℕ)
    → seen_at nonce c.seen ≡ some at
    → seen_at nonce (record_nonce c other now (seen_at other c.seen)).0.seen ≡ some at
seen_at-record_nonce c nonce other at now e = elim (Option-cases (seen_at other c.seen)) [
  | inl fresh ↦
      unfold record_nonce in rw fresh (unfold seen_at in ground (arith, text_eq_iff other nonce))
  | inr (t, old) ↦ unfold record_nonce in rw old e
]

module _ (c : NonceCache) (nonce : Text) (at : ℕ) (known : seen_at nonce c.seen ≡ some at) where
  seen_at-swept_cache :
      (now : ℕ) → now ≤ at + c.retain → seen_at nonce (swept_cache c now).seen ≡ some at
  unfolding swept_cache
  seen_at-swept_cache now h = ground (arith, seen_at-sweep c.retain now nonce c.seen at h known)

  -- A nonce that is known is refused for as long as it is retained.
  pub admit-refuses : (now : ℕ) → now ≤ at + c.retain → (admit c nonce now).1 ≡ false
  unfolding admit
  admit-refuses now h = rw (seen_at-swept_cache now h, admit)

  -- Whatever is admitted within that time, the nonce stays known.
  pub seen_at-admit :
      (other : Text) (now : ℕ)
      → now ≤ at + c.retain
      → seen_at nonce (admit c other now).0.seen ≡ some at
  unfolding admit
  seen_at-admit other now h =
      seen_at-record_nonce (swept_cache c now) nonce other at now (seen_at-swept_cache now h)

-- A nonce that was admitted is known from then on, under the time of its admission.
pub seen_at-admit_fresh :
    (c : NonceCache) (nonce : Text) (now : ℕ)
    → (admit c nonce now).1 ≡ true
    → seen_at nonce (admit c nonce now).0.seen ≡ some now
unfolding admit
seen_at-admit_fresh c nonce now h = elim (Option-cases (seen_at nonce (swept_cache c now).seen)) [
  | inl fresh ↦ rw (fresh, record_nonce) (unfold seen_at in ground (arith, text_eq_iff nonce nonce))
  | inr (t, old) ↦ cc (the_same t old)
]
  where
    the_same :
        (t : ℕ) → seen_at nonce (swept_cache c now).seen ≡ some t → (admit c nonce now).1 ≡ false
    the_same t old = rw (old, record_nonce)
