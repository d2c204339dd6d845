-- ===== src/Transport/Subscribers/Publishing.antt =====
-- The loop of `Iopub::publish` of src/transport.rs, round by round: the channels it has passed stand
-- before those to come, of which the last takes the place of one that is removed.
use mathlib.Core.List.{append-nil, append_assoc}
use kernmini.Prelude.{
  ℕ, zero, suc, ◌+◌, ◌<◌, ◌≡◌, refl, sym, ap, ◌∙◌, Bool, true, false, ◌&&◌, List, [], ◌∷◌, ◌++◌,
  Option, none, some, if◌then◌else◌, length, count_if, count_if-append, length-append, Bool-cases,
  inl, inr, arith,
}
use kernmini.Transport.Subscribers.{
  get_elem?, set, last, init, swap_remove, publish_loop, publish_peers,
}

get_elem?-middle {ℓ} :
    {A : Type ℓ} (xs : List A) (y : A) (ys : List A) → get_elem? (xs ++ y ∷ ys) (length xs) ≡ some y
get_elem?-middle [] y ys = refl
get_elem?-middle (x ∷ xs) y ys = get_elem?-middle xs y ys

get_elem?-end {ℓ} : {A : Type ℓ} (xs : List A) → get_elem? xs (length xs) ≡ none
get_elem?-end [] = refl
get_elem?-end (x ∷ xs) = get_elem?-end xs

-- The last element of a list, at its front.
abbrev rotated : List ℕ → List ℕ
rotated [] = []
rotated (x ∷ xs) = last x xs ∷ init (x ∷ xs)

init-append : (xs : List ℕ) (y : ℕ) (ys : List ℕ) → init (xs ++ y ∷ ys) ≡ xs ++ init (y ∷ ys)
init-append [] y ys = refl
init-append (x ∷ []) y ys = refl
init-append (x ∷ z ∷ xs) y ys = ap (λ l. x ∷ l) (init-append (z ∷ xs) y ys)

set-middle : (xs : List ℕ) (y v : ℕ) (ys : List ℕ) → set (xs ++ y ∷ ys) (length xs) v ≡ xs ++ v ∷ ys
set-middle [] y v ys = refl
set-middle (x ∷ xs) y v ys = ap (λ l. x ∷ l) (set-middle xs y v ys)

last-append : (x : ℕ) (xs : List ℕ) (y : ℕ) (ys : List ℕ) → last x (xs ++ y ∷ ys) ≡ last y ys
last-append x [] y ys = refl
last-append x (z ∷ xs) y ys = last-append z xs y ys

init-last : (y : ℕ) (ys : List ℕ) → init (last y ys ∷ ys) ≡ rotated ys
init-last y [] = refl
init-last y (z ∷ zs) = refl

swap_remove-middle :
    (xs : List ℕ) (y : ℕ) (ys : List ℕ) → swap_remove (xs ++ y ∷ ys) (length xs) ≡ xs ++ rotated ys
unfolding swap_remove
swap_remove-middle [] y ys = init-last y ys
swap_remove-middle (x ∷ xs) y ys = rw (last-append x xs y ys) (
    ap init (set-middle (x ∷ xs) y (last y ys) ys)
    ∙ (init-append (x ∷ xs) (last y ys) ys ∙ ap (λ l. x ∷ xs ++ l) (init-last y ys)))

length-init : (x : ℕ) (xs : List ℕ) → length (init (x ∷ xs)) ≡ length xs
length-init x [] = refl
length-init x (y ∷ ys) = ap suc (length-init y ys)

length-rotated : (xs : List ℕ) → length (rotated xs) ≡ length xs
length-rotated [] = refl
length-rotated (x ∷ xs) = ap suc (length-init x xs)

count_if-rotated : (p : ℕ → Bool) (xs : List ℕ) → count_if p (rotated xs) ≡ count_if p xs
count_if-rotated p [] = refl
count_if-rotated p (x ∷ []) = refl
count_if-rotated p (x ∷ y ∷ ys) = omega (arith, count_if-rotated p (y ∷ ys))

-- What the loop comes to with the channels `before` it passed and `rest` to come.
record Publishes (alive : ℕ → Bool) (before rest sent : List ℕ) (end : Option (List ℕ × List ℕ))
    : Type 0 where
  left : List ℕ
  log : List ℕ
  ends : end ≡ some (left, log)
  stays : (p : ℕ → Bool) → count_if p left ≡ count_if p before + count_if (λ x. p x && alive x) rest
  reaches : (p : ℕ → Bool) → count_if p log ≡ count_if p sent + count_if (λ x. p x && alive x) rest

module _ (alive : ℕ → Bool) where
  publish_loop-end :
      (fuel : ℕ) (before sent : List ℕ)
      → publish_loop alive (suc fuel) (length before) before sent ≡ some (before, sent)
  unfolding publish_loop
  publish_loop-end fuel before sent = ground (arith, get_elem?-end before)

  publish_loop-alive :
      (fuel : ℕ) (before : List ℕ) (x : ℕ) (rest sent : List ℕ)
      → alive x ≡ true
      → publish_loop alive (suc fuel) (length before) (before ++ x ∷ rest) sent
        ≡ publish_loop alive fuel (length before + 1) (before ++ x ∷ rest) (sent ++ x ∷ [])
  unfolding publish_loop
  publish_loop-alive fuel before x rest sent e = ground (arith, get_elem?-middle before x rest)

  publish_loop-dead :
      (fuel : ℕ) (before : List ℕ) (x : ℕ) (rest sent : List ℕ)
      → alive x ≡ false
      → publish_loop alive (suc fuel) (length before) (before ++ x ∷ rest) sent
        ≡ publish_loop alive fuel (length before) (before ++ rotated rest) sent
  unfolding publish_loop
  publish_loop-dead fuel before x rest sent e =
      ground (arith, get_elem?-middle before x rest, swap_remove-middle before x rest)

  count_if-last :
      (p : ℕ → Bool) (xs : List ℕ) (x : ℕ)
      → count_if p (xs ++ x ∷ []) ≡ count_if p xs + (if p x then 1 else 0)
  count_if-last p xs x = omega (arith, count_if-append p xs (x ∷ []))

  Publishes-alive :
      (before : List ℕ) (x : ℕ) (rest sent : List ℕ) (end : Option (List ℕ × List ℕ))
      → alive x ≡ true
      → Publishes alive (before ++ x ∷ []) rest (sent ++ x ∷ []) end
      → Publishes alive before (x ∷ rest) sent end
  Publishes-alive before x rest sent end e h = record {
    left = h.left;
    log = h.log;
    ends = h.ends;
    stays = λ p. ground (arith, h.stays p, count_if-last p before x);
    reaches = λ p. ground (arith, h.reaches p, count_if-last p sent x);
  }

  Publishes-dead :
      (before : List ℕ) (x : ℕ) (rest sent : List ℕ) (end : Option (List ℕ × List ℕ))
      → alive x ≡ false
      → Publishes alive before (rotated rest) sent end
      → Publishes alive before (x ∷ rest) sent end
  Publishes-dead before x rest sent end e h = record {
    left = h.left;
    log = h.log;
    ends = h.ends;
    stays = λ p. ground (arith, h.stays p, count_if-rotated (λ y. p y && alive y) rest);
    reaches = λ p. ground (arith, h.reaches p, count_if-rotated (λ y. p y && alive y) rest);
  }

  length-snoc : (xs : List ℕ) (x : ℕ) → length xs + 1 ≡ length (xs ++ x ∷ [])
  length-snoc xs x = omega (arith, length-append xs (x ∷ []))

  publish_loop-Publishes :
      (fuel : ℕ) (before rest sent : List ℕ)
      → length rest < fuel
      → Publishes alive before rest sent
          (publish_loop alive fuel (length before) (before ++ rest) sent)
  publish_loop-Publishes zero before rest sent h = absurd (omega arith)
  publish_loop-Publishes (suc fuel) before [] sent h = record {
    left = before;
    log = sent;
    ends = rw (append-nil before) (publish_loop-end fuel before sent);
    stays = λ p. omega arith;
    reaches = λ p. omega arith;
  }
  publish_loop-Publishes (suc fuel) before (x ∷ rest) sent h = elim (Bool-cases (alive x)) [
    | inl e ↦ Publishes-alive before x rest sent _ e (
        rw
          (
            publish_loop-alive fuel before x rest sent e,
            length-snoc before x,
            sym (append_assoc before (x ∷ []) rest),
          )
          (publish_loop-Publishes fuel (before ++ x ∷ []) rest (sent ++ x ∷ []) (omega arith)))
    | inr e ↦ Publishes-dead before x rest sent _ e (
        rw (publish_loop-dead fuel before x rest sent e) (
          publish_loop-Publishes fuel before (rotated rest) sent
            (omega (arith, length-rotated rest))))
  ]

  -- The loop of publish ends: every channel that takes the frames gets them as often as it is among the
  -- subscribers, and stays so; no other gets them, and none of those stays.
  pub publish_peers-Publishes :
      (peers : List ℕ)
      → (left : List ℕ) × (log : List ℕ) × (publish_peers alive peers ≡ some (left, log))
        × ((p : ℕ → Bool) → count_if p left ≡ count_if (λ x. p x && alive x) peers)
        × ((p : ℕ → Bool) → count_if p log ≡ count_if (λ x. p x && alive x) peers)
  unfolding publish_peers
  publish_peers-Publishes peers =
      let h = publish_loop-Publishes (length peers + 1) [] peers [] (omega arith) in
      (h.left, h.log, h.ends, λ p. omega (arith, h.stays p), λ p. omega (arith, h.reaches p))
