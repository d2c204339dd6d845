-- ===== src/Engine/Queue/Runnable.antt =====
-- What `pop_runnable` of src/engine.rs takes from the queue, and what it leaves.
use mathlib.Core.List.{append_assoc, Perm}
use mathlib.Core.List.Perm
use kernmini.Prelude.{
  ℕ, ◌≡◌, refl, sym, ap, subst, ◌∙◌, inl, inr, Bool, true, false, List, [], ◌∷◌, ◌++◌, Option, none,
  some, All, arith, Bool-cases, if◌then◌else◌,
}
use kernmini.Engine.Queue.{QueueItem, Held, push, extend, is_runnable, pop_loop, pop_runnable}
use kernmini.Engine.Queue.Order.{Before, IsOrdered, IsSorted, push-between}

-- The first item of the queue that may run, and the queue without it.
abbrev pub select : Bool → Option Held → List QueueItem → Option QueueItem × List QueueItem
select active held [] = (none, [])
select active held (x ∷ q) =
    let (item, rest) = select active held q in
    if is_runnable active held x then (some x, q) else (item, x ∷ rest)

All-right {ℓ κ} : {A : Type ℓ} (P : A → Type κ) (xs ys : List A) → All P (xs ++ ys) → All P ys
All-right P [] ys a = a
All-right P (x ∷ xs) ys a = All-right P xs ys a.1

-- What a sorted queue says around one of its items.
record Around (y : QueueItem) (xs ys : List QueueItem) : Type 0 where
  ordered : IsOrdered y
  left : All IsOrdered xs
  right : All IsOrdered ys
  above : All (λ z. Before z y) xs
  below : All (Before y) ys

sorted_ordered : (n : ℕ) (q : List QueueItem) → IsSorted n q → All IsOrdered q
sorted_ordered n [] s = tt
sorted_ordered n (x ∷ q) (o, l, a, s) = (o, sorted_ordered n q s)

around :
    (n : ℕ) (y : QueueItem) (xs ys : List QueueItem) → IsSorted n (xs ++ y ∷ ys) → Around y xs ys
around n y [] ys (o, l, a, s) = record {
  ordered = o;
  left = tt;
  right = sorted_ordered n ys s;
  above = tt;
  below = a;
}
around n y (x ∷ xs) ys (o, l, a, s) =
    let rest = around n y xs ys s in
    record {
      ordered = rest.ordered;
      left = (o, rest.left);
      right = rest.right;
      above = ((All-right (Before x) xs (y ∷ ys) a).0, rest.above);
      below = rest.below;
    }

snoc-append {ℓ} :
    {A : Type ℓ} (xs : List A) (x : A) (ys : List A) → (xs ++ x ∷ []) ++ ys ≡ xs ++ x ∷ ys
snoc-append xs x ys = append_assoc xs (x ∷ []) ys

All-without {ℓ κ} :
    {A : Type ℓ} (P : A → Type κ) (x : A) (xs ys : List A) → All P (xs ++ x ∷ ys) → All P (xs ++ ys)
All-without P x [] ys a = a.1
All-without P x (z ∷ xs) ys a = (a.0, All-without P x xs ys a.1)

IsSorted-without :
    (n : ℕ) (x : QueueItem) (xs ys : List QueueItem)
    → IsSorted n (xs ++ x ∷ ys)
    → IsSorted n (xs ++ ys)
IsSorted-without n x [] ys (o, l, a, s) = s
IsSorted-without n x (z ∷ xs) ys (o, l, a, s) =
    (o, l, All-without (Before z) x xs ys a, IsSorted-without n x xs ys s)

-- The parked items go back to where they were.
pub extend-parked :
    (n : ℕ) (front parked back : List QueueItem)
    → IsSorted n (front ++ (parked ++ back))
    → extend (front ++ back) parked ≡ front ++ (parked ++ back)
unfolding extend
extend-parked n front [] back s = refl
extend-parked n front (p ∷ parked) back s =
    let at = around n p front (parked ++ back) s in
    let placed : push p (front ++ back) ≡ (front ++ p ∷ []) ++ back =
      push-between p front back at.ordered at.left (All-right _ parked back at.right) at.above
        (All-right _ parked back at.below)
      ∙ sym (snoc-append front p back) in
    rw placed (
      extend-parked n (front ++ p ∷ []) parked back
        (subst (IsSorted n) (sym (snoc-append front p (parked ++ back))) s)
      ∙ snoc-append front p (parked ++ back))

-- The loop with items parked so far.
pop_loop-select :
    (n : ℕ) (active : Bool) (held : Option Held) (q parked : List QueueItem)
    → IsSorted n (parked ++ q)
    → let (item, left, put_by) = pop_loop active held q parked in
      (item ≡ (select active held q).0) × (extend left put_by ≡ parked ++ (select active held q).1)
unfolding pop_loop
pop_loop-select n active held [] parked s = (refl, extend-parked n [] parked [] s)
pop_loop-select n active held (x ∷ q) parked s =
    let ih =
      pop_loop-select n active held q (parked ++ x ∷ [])
        (subst (IsSorted n) (sym (snoc-append parked x q)) s) in
    elim (Bool-cases (is_runnable active held x)) [
      | inl run ↦ rw run (refl, extend-parked n [] parked q (IsSorted-without n x parked q s))
      | inr wait ↦ rw wait (ih.0, ih.1 ∙ snoc-append parked x _)
    ]

-- On a queue in order `pop_runnable` takes the first item that may run, wherever it stands, and
-- leaves the others in their order.
pub pop_runnable-select :
    (n : ℕ) (queue : List QueueItem) (active : Bool) (held : Option Held)
    → IsSorted n queue
    → pop_runnable queue active held ≡ select active held queue
unfolding pop_runnable
pop_runnable-select n queue active held s =
    let (item, rest) = pop_loop-select n active held queue [] s in λ i. (item i, rest i)

abbrev pub Loses : Bool → Option Held → QueueItem → QueueItem → Type 0
Loses active held item y = is_runnable active held y ≡ true → Before item y

all_lose :
    (active : Bool) (held : Option Held) (x : QueueItem) (q : List QueueItem)
    → All (Before x) q
    → All (Loses active held x) q
all_lose active held x [] a = tt
all_lose active held x (y ∷ q) a = (λ run. a.0, all_lose active held x q a.1)

select-first :
    (n : ℕ) (active : Bool) (held : Option Held) (q : List QueueItem) (item : QueueItem)
    → IsSorted n q
    → (select active held q).0 ≡ some item
    → (is_runnable active held item ≡ true)
      × All (Loses active held item) (select active held q).1
      × Perm q (item ∷ (select active held q).1)
select-first n active held [] item s h = absurd (cc)
select-first n active held (x ∷ q) item (o, l, a, s) h =
    elim (Bool-cases (is_runnable active held x)) [
      | inl run ↦
          let same : x ≡ item = ground arith in
          rw run (
            subst
              (λ z.
                (is_runnable active held z ≡ true)
                × All (Loses active held z) q
                × Perm (x ∷ q) (z ∷ q))
              same (run, all_lose active held x q a, Perm.refl (x ∷ q)))
      | inr wait ↦
          let (r, b, p) = select-first n active held q item s (ground arith) in
          rw wait (r, (λ bad. absurd (cc), b), Perm.trans (Perm.cons x p) (Perm.swap item x _))
    ]

-- What `pop_runnable` returns from a queue in order may run, leaves before every other item that may
-- run, and together with what is left is the whole queue.
pub pop_runnable-first :
    (n : ℕ) (queue : List QueueItem) (active : Bool) (held : Option Held) (item : QueueItem)
    → IsSorted n queue
    → (pop_runnable queue active held).0 ≡ some item
    → (is_runnable active held item ≡ true)
      × All (Loses active held item) (pop_runnable queue active held).1
      × Perm queue (item ∷ (pop_runnable queue active held).1)
pop_runnable-first n queue active held item s =
    rw (pop_runnable-select n queue active held s) (select-first n active held queue item s)

select-none :
    (active : Bool) (held : Option Held) (q : List QueueItem)
    → (select active held q).0 ≡ none
    → All (λ y. is_runnable active held y ≡ false) q × ((select active held q).1 ≡ q)
select-none active held [] h = (tt, refl)
select-none active held (x ∷ q) h = elim (Bool-cases (is_runnable active held x)) [
  | inl run ↦ absurd (ground arith)
  | inr wait ↦
      let ih = select-none active held q (ground arith) in ((wait, ih.0), rw wait (ap (◌∷◌ x) ih.1))
]

-- On a queue in order `pop_runnable` returns nothing only if nothing may run, and then the queue is as
-- it was.
pub pop_runnable-none :
    (n : ℕ) (queue : List QueueItem) (active : Bool) (held : Option Held)
    → IsSorted n queue
    → (pop_runnable queue active held).0 ≡ none
    → All (λ y. is_runnable active held y ≡ false) queue
      × ((pop_runnable queue active held).1 ≡ queue)
pop_runnable-none n queue active held s =
    rw (pop_runnable-select n queue active held s) (select-none active held queue)

All-select {κ} :
    (P : QueueItem → Type κ) (active : Bool) (held : Option Held) (q : List QueueItem)
    → All P q
    → All P (select active held q).1
All-select P active held [] a = tt
All-select P active held (x ∷ q) a = elim (Bool-cases (is_runnable active held x)) [
  | inl run ↦ rw run a.1
  | inr wait ↦ rw wait (a.0, All-select P active held q a.1)
]

IsSorted-select :
    (n : ℕ) (active : Bool) (held : Option Held) (q : List QueueItem)
    → IsSorted n q
    → IsSorted n (select active held q).1
IsSorted-select n active held [] s = tt
IsSorted-select n active held (x ∷ q) (o, l, a, s) = elim (Bool-cases (is_runnable active held x)) [
  | inl run ↦ rw run s
  | inr wait ↦
      rw wait (o, l, All-select (Before x) active held q a, IsSorted-select n active held q s)
]

-- What is left of a queue in order is in order.
pub pop_runnable-IsSorted :
    (n : ℕ) (queue : List QueueItem) (active : Bool) (held : Option Held)
    → IsSorted n queue
    → IsSorted n (pop_runnable queue active held).1
pop_runnable-IsSorted n queue active held s =
    rw (pop_runnable-select n queue active held s) (IsSorted-select n active held queue s)
