-- ===== src/Transit/Vouchers.antt =====
-- What a voucher's signature covers.
use nerw_rpc.Prelude.{
  ℕ, ◌+◌, ◌*◌, ◌^◌, ◌<◌, List, [], ◌∷◌, ◌++◌, ◌≡◌, ◌↔◌, refl, sym, ap, ◌∙◌, arith, length,
  Bool-cases, inl, inr,
}
use nerw_rpc.Prelude.Text.{text_eq, text_eq_iff}
use nerw_rpc.Result.{ok, err}
use nerw_rpc.Context.{NodeId}
use nerw_rpc.External.Keys.{Keys, KeysLaws}
use nerw_rpc.Transit.{
  compose_signing_bytes, to_be_bytes, voucher_domain_tag, sign, verify, voucher_invalid_sig,
}

append-inj :
    (xs ys us vs : List ℕ) → length xs ≡ length ys → xs ++ us ≡ ys ++ vs → (xs ≡ ys) × (us ≡ vs)
append-inj [] [] us vs l e = (refl, e)
append-inj [] (y ∷ ys) us vs l e = absurd (omega arith)
append-inj (x ∷ xs) [] us vs l e = absurd (omega arith)
append-inj (x ∷ xs) (y ∷ ys) us vs l e =
    let tail : xs ++ us ≡ ys ++ vs = cc in
    let head : x ≡ y = cc in
    let (p, q) = append-inj xs ys us vs (omega arith) tail in (rw (head, p) refl, q)

-- The number that eight bytes stand for, highest first.
abbrev value : List ℕ → ℕ → ℕ
value [] n = n
value (b ∷ s) n = value s (n * 256 + b)

value-to_be_bytes : (n : ℕ) → n < 2 ^ 64 → value (to_be_bytes n) 0 ≡ n
value-to_be_bytes n h = omega arith

to_be_bytes-inj : (m n : ℕ) → m < 2 ^ 64 → n < 2 ^ 64 → to_be_bytes m ≡ to_be_bytes n → m ≡ n
to_be_bytes-inj m n hm hn e =
    sym (value-to_be_bytes m hm) ∙ ap (λ s. value s 0) e ∙ value-to_be_bytes n hn

-- Two vouchers with keys of the same lengths and expiries that are u64s are signed over the same
-- bytes only if they agree on the relay, on the peer and on the expiry: the layout is not ambiguous.
pub compose_signing_bytes_injective :
    (relay peer relay' peer' : NodeId) (expire expire' : ℕ)
    → length relay ≡ length relay'
    → length peer ≡ length peer'
    → expire < 2 ^ 64
    → expire' < 2 ^ 64
    → compose_signing_bytes relay peer expire ≡ compose_signing_bytes relay' peer' expire'
    → (relay ≡ relay') × (peer ≡ peer') × (expire ≡ expire')
unfolding compose_signing_bytes
compose_signing_bytes_injective relay peer relay' peer' expire expire' lr lp h h' e =
    let (_, e1) =
      append-inj voucher_domain_tag voucher_domain_tag (relay ++ (peer ++ to_be_bytes expire))
        (relay' ++ (peer' ++ to_be_bytes expire')) refl e in
    let (r, e2) =
      append-inj relay relay' (peer ++ to_be_bytes expire) (peer' ++ to_be_bytes expire') lr e1 in
    let (p, e3) = append-inj peer peer' (to_be_bytes expire) (to_be_bytes expire') lp e2 in
    (r, p, to_be_bytes-inj expire expire' h h' e3)

-- A voucher that a relay signs verifies against that relay's public key and against no other key.
pub verify-sign :
    {keys : Keys} (laws : KeysLaws keys) (secret : List ℕ) (peer : NodeId) (expire : ℕ)
    (key : List ℕ)
    → (verify keys (sign keys secret peer expire) key ≡ ok tt) ↔ (keys.public secret ≡ key)
unfolding verify sign
verify-sign {keys} laws secret peer expire key = (
  λ h. elim (Bool-cases (text_eq (keys.public secret) key)) [
    | inl same ↦ (text_eq_iff (keys.public secret) key).0 same
    | inr other ↦ absurd (let bad : err voucher_invalid_sig ≡ ok tt = rw other at h in cc)
  ],
  λ e. rw (← e) (
      rw
        (
          (text_eq_iff (keys.public secret) (keys.public secret)).1 refl,
          laws.verify-sign secret (compose_signing_bytes (keys.public secret) peer expire),
        )
        refl),
)
