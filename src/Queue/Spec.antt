-- ===== src/Queue/Spec.antt =====
-- What a queue of pkg/queue/lockfree.go promises when its drop policy is not DropOldest: a first-in
-- first-out list of at most `cap` messages. A call's reply is the Boolean or message it returns.
use portask.Prelude.{
  ℕ, Bool, true, false, Option, none, some, List, [], ◌∷◌, ◌++◌, length, ltb, if◌then◌else◌,
}

pub data Call (A : Type 0) : Type 0 where
  put : A → Call A
  get : Call A

pub data Reply (A : Type 0) : Type 0 where
  accepted : Bool → Reply A
  taken : Option A → Bool → Reply A

module _ {A : Type 0} where
  abbrev pub push : ℕ → List A → A → Bool × List A
  push cap xs x = if ltb (length xs) cap then (true, xs ++ x ∷ []) else (false, xs)

  abbrev pub pop : List A → (Option A × Bool) × List A
  pop [] = ((none, false), [])
  pop (x ∷ xs) = ((some x, true), xs)

  abbrev pub answer : ℕ → List A → Call A → Reply A × List A
  answer cap xs (put x) = let (b, ys) = push cap xs x in (accepted b, ys)
  answer cap xs get = let ((o, b), ys) = pop xs in (taken o b, ys)

  -- The replies to a list of calls, and the messages left.
  unfoldable pub run : ℕ → List A → List (Call A) → List (Reply A) × List A
  run cap xs [] = ([], xs)
  run cap xs (c ∷ cs) =
      let (r, ys) = answer cap xs c in let (rs, zs) = run cap ys cs in (r ∷ rs, zs)
