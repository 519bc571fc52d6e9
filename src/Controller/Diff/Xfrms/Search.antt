-- ===== src/Controller/Diff/Xfrms/Search.antt =====
-- The binary search of `diffXfrms` ends.
use ipman.Prelude.{
  ℕ, zero, suc, ◌+◌, ◌/◌, ◌≤◌, String, ◌≡◌, refl, sym, false, List, ltb, get_elem?, arith, inl, inr,
  Bool-cases,
}
use ipman.Controller.State.{XfrmPod}
use ipman.Controller.Diff.Xfrms.{before, search_from}

search_from-ended :
    (k : ℕ) (xs : List XfrmPod) (name : String) (i j : ℕ)
    → ltb i j ≡ false
    → search_from k xs name i j ≡ i
unfolding search_from
search_from-ended zero xs name i j h = refl
search_from-ended (suc k) xs name i j h = rw (search_from, h) refl

-- The search of an interval ends before its fuel is used up, if the fuel is at least the interval's
-- length: any two such amounts of fuel give the same index.
pub search_from_enough :
    (a b : ℕ) (xs : List XfrmPod) (name : String) (i j : ℕ)
    → j ≤ i + a
    → j ≤ i + b
    → search_from a xs name i j ≡ search_from b xs name i j
unfolding search_from
search_from_enough zero b xs name i j h k =
    sym (search_from-ended b xs name i j (ground (arith, h)))
search_from_enough (suc a) zero xs name i j h k =
    search_from-ended (suc a) xs name i j (ground (arith, k))
search_from_enough (suc a) (suc b) xs name i j h k = elim (Bool-cases (ltb i j)) [
  | inl e ↦
      let m = (i + j) / 2 in
      elim (Bool-cases (before (get_elem? xs m) name)) [
        | inl f ↦
            rw (search_from, e, f)
              (search_from_enough a b xs name (m + 1) j (ground (arith, h, e))
                (ground (arith, k, e)))
        | inr f ↦
            rw (search_from, e, f)
              (search_from_enough a b xs name i m (ground (arith, h, e)) (ground (arith, k, e)))
      ]
  | inr e ↦ rw (search_from, e) refl
]
