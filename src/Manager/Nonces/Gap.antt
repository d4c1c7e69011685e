-- ===== src/Manager/Nonces/Gap.antt =====
-- `findNonceGap` of manager_nonce.go finds the first gap, and keeps the gap finder's contract.
use walletarmy.Common.{
  ℕ, zero, suc, ◌-◌, ◌≤◌, ◌<◌, ◌≡◌, refl, Bool-cases, inl, inr, Bool, true, false, Option, none,
  some, arith,
}
use walletarmy.Nonce.Session.{Skips}
use walletarmy.Manager.Nonces.{Stored, is_gap, find_from, find_nonce_gap}

-- What a search among the nonces of [from, to) that are free has to answer.
pub data FirstFree (free : ℕ → Bool) (from to : ℕ) : Option ℕ → Type 0 where
  found :
      (n : ℕ)
      → from ≤ n
      → n < to
      → free n ≡ true
      → ((m : ℕ) → from ≤ m → m < n → free m ≡ false)
      → FirstFree free from to (some n)
  nothing : ((m : ℕ) → from ≤ m → m < to → free m ≡ false) → FirstFree free from to none

FirstFree-suc :
    (free : ℕ → Bool) (from to : ℕ) {r : Option ℕ}
    → free from ≡ false
    → FirstFree free (suc from) to r
    → FirstFree free from to r
FirstFree-suc free from to h (found n a b f before) =
    found n (omega arith) b f (λ m le lt. grind (arith, before m))
FirstFree-suc free from to h (nothing all) = nothing (λ m le lt. grind (arith, all m))

find_from-FirstFree :
    (free : ℕ → Bool) (rounds n to : ℕ)
    → rounds ≡ to - n
    → FirstFree free n to (find_from free rounds n)
unfolding find_from
find_from-FirstFree free zero n to e = nothing (λ m le lt. absurd (omega arith))
find_from-FirstFree free (suc rounds) n to e = elim (Bool-cases (free n)) [
  | inl yes_ ↦ rw yes_ (found n (omega arith) (omega arith) yes_ (λ m le lt. absurd (omega arith)))
  | inr no_ ↦
      rw no_
        (FirstFree-suc free n to no_ (find_from-FirstFree free rounds (suc n) to (omega arith)))
]

-- `findNonceGap` answers the first nonce of [from, to) that is neither claimed nor has a transaction
-- in the store; a nonce that the store fails on is passed over. There is no answer only if there is
-- no such nonce.
pub find_nonce_gap-FirstFree :
    (stored : Stored) (w c from to : ℕ) (claimed : ℕ → Bool)
    → FirstFree
        (λ n. is_gap (claimed n) (stored w c n))
        from
        to
        (find_nonce_gap stored w c from to claimed)
unfolding find_nonce_gap
find_nonce_gap-FirstFree stored w c from to claimed = find_from-FirstFree _ (to - from) from to refl

some_of_FirstFree :
    (free : ℕ → Bool) (from to n : ℕ) (r : Option ℕ)
    → FirstFree free from to r
    → r ≡ some n
    → (free n ≡ true) × (from ≤ n) × (n < to)
some_of_FirstFree free from to n r (found k a b f before) e =
    let same : k ≡ n = cc in (rw (← same) f, omega arith, omega arith)
some_of_FirstFree free from to n r (nothing all) e = cc

-- The gap finder of the manager never answers a claimed nonce, nor one outside the range.
pub find_nonce_gap-Skips : (stored : Stored) → Skips (find_nonce_gap stored)
find_nonce_gap-Skips stored w c from to claimed n e =
    let (free, a, b) =
      some_of_FirstFree _ from to n _ (find_nonce_gap-FirstFree stored w c from to claimed) e in
    (ground (arith, free), a, b)

eq_of_FirstFree :
    (free : ℕ → Bool) (from to n : ℕ) {r : Option ℕ}
    → FirstFree free from to r
    → free n ≡ true
    → from ≤ n
    → n < to
    → ((m : ℕ) → from ≤ m → m < n → free m ≡ false)
    → r ≡ some n
eq_of_FirstFree free from to n (found k a b f before) g le lt first =
    grind (arith, before n, first k)
eq_of_FirstFree free from to n (nothing all) g le lt first = grind (arith, all n)

-- If `n` is the first gap of the range, it is the answer.
pub find_nonce_gap_first :
    (stored : Stored) (w c from to n : ℕ) (claimed : ℕ → Bool)
    → is_gap (claimed n) (stored w c n) ≡ true
    → from ≤ n
    → n < to
    → ((m : ℕ) → from ≤ m → m < n → is_gap (claimed m) (stored w c m) ≡ false)
    → find_nonce_gap stored w c from to claimed ≡ some n
find_nonce_gap_first stored w c from to n claimed =
    eq_of_FirstFree _ from to n (find_nonce_gap-FirstFree stored w c from to claimed)
