-- ===== src/Funds.antt =====
-- examples/fund_distribution/transfer_strategy.go: the transfers that take wallets to their targets.
-- A `*big.Int` is an address of a heap, since the code lets two names stand for one number.
pub mod Plan
pub mod Balance
pub mod Transfers
pub mod Exact
pub mod Strategy
pub mod Sending
pub mod Keys
pub mod Parallel
mod Tests
use walletarmy.Common.{
  ℕ, zero, suc, ◌+◌, Bool, true, false, Option, none, some, List, [], ◌∷◌, length, ltb, ◌==◌, ℤ,
  pos, negsuc, ◌+ℤ◌, ◌-ℤ◌, ltbℤ, if◌then◌else◌,
}

pub record Transfer : Type 0 where
  pub from : ℕ
  pub to : ℕ
  pub amount : ℤ

-- The numbers of `difference` stand at 0, …, n - 1, and that of `need` at n.
abbrev pub Heap : Type 0
Heap = ℕ → ℤ

abbrev pub update : ℕ → ℤ → Heap → Heap
update a v h k = if k == a then v else h k

-- `z.Sub(x, y)`, `z.Add(x, y)` and `z.Neg(x)`.
abbrev pub big_sub : ℕ → ℕ → ℕ → Heap → Heap
big_sub z x y h = update z (h x -ℤ h y) h

abbrev pub big_add : ℕ → ℕ → ℕ → Heap → Heap
big_add z x y h = update z (h x +ℤ h y) h

abbrev pub big_neg : ℕ → ℕ → Heap → Heap
big_neg z x h = update z (pos 0 -ℤ h x) h

-- The address of the smaller number.
abbrev pub min_big : ℕ → ℕ → Heap → ℕ
min_big a b h = if ltbℤ (h a) (h b) then a else b

pub record Differences : Type 0 where
  pub difference : Heap
  pub excess : List ℕ
  pub deficit : List ℕ

abbrev pub push_if : Bool → ℕ → List ℕ → List ℕ
push_if true i is = i ∷ is
push_if false i is = is

-- The first loop, from the wallet `i` on.
abbrev pub differences : ℕ → List ℤ → List ℤ → Differences
differences i (a ∷ initial) (b ∷ target) =
    let rest = differences (suc i) initial target in
    record {
      difference = update i (a -ℤ b) rest.difference;
      excess = push_if (ltbℤ (pos 0) (a -ℤ b)) i rest.excess;
      deficit = push_if (ltbℤ (a -ℤ b) (pos 0)) i rest.deficit;
    }
differences i _ _ = record { difference = λ k. pos 0; excess = []; deficit = [] }

abbrev pub is_zero : ℤ → Bool
is_zero (pos n) = n == 0
is_zero (negsuc n) = false

-- A pointer moves on when the number is used up.
abbrev pub move_on : Bool → ℕ → List ℕ → List ℕ
move_on true i is = is
move_on false i is = i ∷ is

-- One round at the surplus `e` and the need `d`: the transfer, and the heap after it.
unfoldable pub chosen : ℕ → ℕ → ℕ → Heap → ℕ
chosen n e d h = min_big e n (big_neg n d h)

-- `difference[e]` less the number at `amount`, then `difference[d]` and that number.
unfoldable pub spend : ℕ → ℕ → ℕ → Heap → Heap
spend e d amount h = big_add d d amount (big_sub e e amount h)

abbrev pub transfer_of : ℕ → ℕ → ℕ → Heap → Transfer
transfer_of n e d h = record { from = e; to = d; amount = big_neg n d h (chosen n e d h) }

abbrev pub after_transfer : ℕ → ℕ → ℕ → Heap → Heap
after_transfer n e d h = spend e d (chosen n e d h) (big_neg n d h)

-- `panics` is the call of `panic`; `endless` is a loop that has not ended after the rounds given.
pub data Found : Type 0 where
  panics endless : Found
  found : List Transfer → Found

abbrev pub and_transfer : Transfer → Found → Found
and_transfer t panics = panics
and_transfer t endless = endless
and_transfer t (found ts) = found (t ∷ ts)

-- The second loop. The indices i and j are the heads of the lists.
pub match_from : ℕ → ℕ → List ℕ → List ℕ → Heap → Found
match_from rounds n [] ds h = found []
match_from rounds n (e ∷ es) [] h = found []
match_from zero n (e ∷ es) (d ∷ ds) h = endless
match_from (suc rounds) n (e ∷ es) (d ∷ ds) h =
    let h' = after_transfer n e d h in
    and_transfer (transfer_of n e d h)
      (match_from rounds n (move_on (is_zero (h' e)) e es) (move_on (is_zero (h' d)) d ds) h')

unfoldable pub find_transfers : List ℤ → List ℤ → Found
find_transfers initial target =
    let n = length initial in
    let all = differences 0 initial target in
    if length target == n
    then match_from (length all.excess + length all.deficit) n all.excess all.deficit all.difference
    else panics

overfunded : Found
unfolding find_transfers match_from chosen spend
overfunded =
    find_transfers (pos 4 ∷ pos 8 ∷ pos 0 ∷ pos 0 ∷ []) (pos 3 ∷ pos 3 ∷ pos 3 ∷ pos 3 ∷ [])
