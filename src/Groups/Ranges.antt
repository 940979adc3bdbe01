-- ===== src/Groups/Ranges.antt =====
-- What `RangeRebalancePolicy` gives each member of a topic.
use portask.Prelude.{
  ℕ, suc, ◌+◌, ◌/◌, ◌%◌, ◌≡◌, refl, sym, ap, ◌∙◌, some, List, [], ◌∷◌, ◌++◌, length, take, drop,
  take-append-drop, arith, false, ◌==◌,
}
use native.Mathlib.Nat.{add_assoc}
use portask.Prelude.Maps.{nat_eq, list_eq, find, put}
use portask.Groups.{Text}
use portask.Groups.Slices.{
  share, slice, owed, concat, Shares, taken, slice-fits, drop_add, drop_all, owed_all,
}
use portask.Groups.Assign.{PartitionAssignment, or_empty, assign_range, range_members, range_topic}

abbrev pub give :
    Text
    → Text
    → List ℕ
    → List (Text × List PartitionAssignment)
    → List (Text × List PartitionAssignment)
give topic m [] a = a
give topic m (p ∷ s) a =
    put a m (or_empty (find a m) ++ record { topic = topic; partitions = p ∷ s } ∷ [])

-- Each member gets its slice, unless it is empty.
unfoldable pub gives :
    Text
    → List Text
    → List (List ℕ)
    → List (Text × List PartitionAssignment)
    → List (Text × List PartitionAssignment)
gives topic [] ss a = a
gives topic (m ∷ members) [] a = a
gives topic (m ∷ members) (s ∷ ss) a = gives topic members ss (give topic m s a)

some_ne : (n k : ℕ) → suc k ≡ n → (n == 0) ≡ false
some_ne n k e = ground arith

assign_range-give :
    (topic m : Text) (n : ℕ) (s : List ℕ) (a : List (Text × List PartitionAssignment))
    → length s ≡ n
    → assign_range topic m n (some s) a ≡ some (give topic m s a)
unfolding assign_range
assign_range-give topic m n [] a e = ap (λ n. assign_range topic m n (some []) a) (sym e)
assign_range-give topic m n (p ∷ s) a e = rw (some_ne n (length s) e) refl

-- What the members from `i` on get from `part_idx` on.
record Cut (topic : Text) (per_member remainder : ℕ) (parts : List ℕ) (members : List Text)
    (i part_idx : ℕ) : Type 0 where
  slices : List (List ℕ)
  gets :
      (a : List (Text × List PartitionAssignment))
      → range_members topic per_member remainder parts members i part_idx a
        ≡ some (gives topic members slices a)
  one_each : length slices ≡ length members
  whole : concat slices ≡ drop part_idx parts
  shares : Shares per_member remainder i slices

range_members-Cut :
    (topic : Text) (per_member remainder : ℕ) (parts : List ℕ) (members : List Text)
    (i part_idx : ℕ)
    → part_idx + owed (length members) per_member remainder i ≡ length parts
    → Cut topic per_member remainder parts members i part_idx
unfolding owed concat gives range_members
range_members-Cut topic per_member remainder parts [] i part_idx e = record {
  slices = [];
  gets = λ a. refl;
  whole =
      let here : part_idx ≡ length parts = omega (arith, e) in
      sym (ap (λ n. drop n parts) here ∙ drop_all parts);
  one_each = refl;
  shares = tt;
}
range_members-Cut topic per_member remainder parts (m ∷ members) i part_idx e =
    let n = share per_member remainder i in
    let rest = owed (length members) per_member remainder (i + 1) in
    let all : part_idx + (n + rest) ≡ length parts = e in
    let c =
      range_members-Cut topic per_member remainder parts members (i + 1) (part_idx + n)
        (add_assoc part_idx n rest ∙ all) in
    let s = take n (drop part_idx parts) in
    record {
      slices = s ∷ c.slices;
      gets = λ a.
          let step : assign_range topic m n (slice part_idx n parts) a ≡ some (give topic m s a) =
            ap (λ o. assign_range topic m n o a) (slice-fits part_idx n rest parts all)
            ∙ assign_range-give topic m n s a (taken n part_idx rest parts all) in
          rw (step, range_members) (c.gets (give topic m s a));
      whole =
          ap (λ l. s ++ l) (c.whole ∙ drop_add part_idx n parts)
          ∙ take-append-drop n (drop part_idx parts);
      one_each = ap suc c.one_each;
      shares = (taken n part_idx rest parts all, c.shares);
    }

-- `RangeRebalancePolicy.Assign` cuts the partitions of a topic into one slice for each of the
-- members, of which there is one at least, and appends to the assignment of each, in their order,
-- its slice unless it is empty, without a panic; the slices in their order hold the partitions in
-- theirs, and as many of the first members as the division leaves over get one partition more
-- than the others.
pub range_topic_cuts :
    (m : Text) (members : List Text) (topic : Text) (parts : List ℕ)
    → let n = length (m ∷ members) in
      (ss : List (List ℕ)) × (length ss ≡ n)
      × (concat ss ≡ parts)
      × Shares (length parts / n) (length parts % n) 0 ss
      × ((a : List (Text × List PartitionAssignment))
          → range_topic (m ∷ members) topic parts a ≡ some (gives topic (m ∷ members) ss a))
unfolding range_topic
range_topic_cuts m members topic parts =
    let n = length (m ∷ members) in
    let c =
      range_members-Cut topic (length parts / n) (length parts % n) parts (m ∷ members) 0 0
        (owed_all n (length parts) (omega arith)) in
    (c.slices, c.one_each, c.whole, c.shares, c.gets)
