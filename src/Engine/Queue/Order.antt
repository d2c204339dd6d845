-- ===== src/Engine/Queue/Order.antt =====
-- The order of the queue: by priority, then by arrival.
use kernmini.Prelude.{
  ℕ, suc, ◌≤◌, ◌<◌, ◌≡◌, refl, ap, ◌⊎◌, inl, inr, ◌≢◌, true, false, List, [], ◌∷◌, ◌++◌, All, arith,
  Bool-cases,
}
use kernmini.Float.{is_nan, rank}
use kernmini.Engine.Queue.{QueueItem, cmp, push, is_gt}

-- `a` leaves the queue before `b`: a greater priority, or the same and an earlier arrival.
abbrev pub Before : QueueItem → QueueItem → Type 0
Before a b =
    (rank b.priority < rank a.priority)
    ⊎ ((rank a.priority ≡ rank b.priority) × (a.order < b.order))

abbrev pub IsOrdered : QueueItem → Type 0
IsOrdered a = is_nan a.priority ≡ false

-- On priorities that are numbers, `cmp` says which item leaves first.
pub cmp-Before : (a b : QueueItem) → IsOrdered a → IsOrdered b → is_gt (cmp a b) ≡ true → Before a b
unfolding cmp
cmp-Before a b ha hb h = ground arith

pub Before-cmp : (a b : QueueItem) → IsOrdered a → IsOrdered b → Before a b → is_gt (cmp a b) ≡ true
unfolding cmp
Before-cmp a b ha hb h = ground arith

-- The items in the order in which they leave, all with a number for a priority and all of them
-- arrived before `n`.
abbrev pub IsSorted : ℕ → List QueueItem → Type 0
IsSorted n [] = Unit {0}
IsSorted n (x ∷ q) = IsOrdered x × (x.order < n) × All (λ y. Before x y) q × IsSorted n q

pub All-Before_trans :
    (x y : QueueItem) (q : List QueueItem) → Before x y → All (Before y) q → All (Before x) q
All-Before_trans x y [] h a = tt
All-Before_trans x y (z ∷ q) h a = (grind arith, All-Before_trans x y q h a.1)

All-push {κ} :
    (P : QueueItem → Type κ) (item : QueueItem) (q : List QueueItem)
    → P item
    → All P q
    → All P (push item q)
unfolding push
All-push P item [] h a = (h, tt)
All-push P item (x ∷ q) h a = elim (Bool-cases (is_gt (cmp item x))) [
  | inl e ↦ rw e (h, a)
  | inr e ↦ rw e (a.0, All-push P item q h a.1)
]

IsSorted-mono : (m n : ℕ) (q : List QueueItem) → m ≤ n → IsSorted m q → IsSorted n q
IsSorted-mono m n [] h s = tt
IsSorted-mono m n (x ∷ q) h (o, l, a, s) = (o, omega arith, a, IsSorted-mono m n q h s)

-- Two different arrivals are never equal in the order.
Before-total : (a b : QueueItem) → a.order ≢ b.order → Before a b ⊎ Before b a
Before-total a b h = grind arith

not_gt :
    (a b : QueueItem)
    → IsOrdered a
    → IsOrdered b
    → a.order ≢ b.order
    → is_gt (cmp a b) ≡ false
    → Before b a
not_gt a b ha hb d e = elim (Before-total a b d) [
  | inl h ↦ absurd (ground (arith, Before-cmp a b ha hb h))
  | inr h ↦ h
]

Before-not_gt : (a b : QueueItem) → IsOrdered a → IsOrdered b → Before b a → is_gt (cmp a b) ≡ false
Before-not_gt a b ha hb h = elim (Bool-cases (is_gt (cmp a b))) [
  | inl e ↦ absurd (grind (arith, cmp-Before a b ha hb e))
  | inr e ↦ e
]

-- An item that differs from every queued one in its arrival can be pushed.
pub push-IsSorted' :
    (n : ℕ) (item : QueueItem) (q : List QueueItem)
    → IsOrdered item
    → item.order < n
    → All (λ y. item.order ≢ y.order) q
    → IsSorted n q
    → IsSorted n (push item q)
unfolding push
push-IsSorted' n item [] o l d s = (o, l, tt, tt)
push-IsSorted' n item (x ∷ q) o l d (ox, lx, a, s) = elim (Bool-cases (is_gt (cmp item x))) [
  | inl e ↦
      let before = cmp-Before item x o ox e in
      rw e (o, l, (before, All-Before_trans item x q before a), (ox, lx, a, s))
  | inr e ↦
      let before : Before x item = not_gt item x o ox d.0 e in
      rw e (ox, lx, All-push (Before x) item q before a, push-IsSorted' n item q o l d.1 s)
]

older : (n m : ℕ) (q : List QueueItem) → IsSorted n q → n ≤ m → All (λ y. m ≢ y.order) q
older n m [] s h = tt
older n m (x ∷ q) (o, l, a, s) h = (omega arith, older n m q s h)

-- A new arrival, with a priority that is a number, keeps the queue in order.
pub push-IsSorted :
    (n : ℕ) (item : QueueItem) (q : List QueueItem)
    → IsOrdered item
    → item.order ≡ n
    → IsSorted n q
    → IsSorted (suc n) (push item q)
push-IsSorted n item q o e s =
    push-IsSorted' (suc n) item q o (omega arith) (rw e (older n n q s (omega arith)))
      (IsSorted-mono n (suc n) q (omega arith) s)

-- A push of an item behind `front` and before `back` puts it between them.
pub push-between :
    (item : QueueItem) (front back : List QueueItem)
    → IsOrdered item
    → All IsOrdered front
    → All IsOrdered back
    → All (λ y. Before y item) front
    → All (Before item) back
    → push item (front ++ back) ≡ front ++ item ∷ back
unfolding push
push-between item [] [] o of ob f b = refl
push-between item [] (x ∷ back) o of ob f b = rw (Before-cmp item x o ob.0 b.0)
push-between item (x ∷ front) back o of ob f b =
    rw (Before-not_gt item x o of.0 f.0) (ap (◌∷◌ x) (push-between item front back o of.1 ob f.1 b))
