-- ===== src/Engine/Pump/Coalesce.antt =====
-- What the joining of stream messages in the output pump of src/engine.rs keeps.
use Prim.Native.Char.{Char}
use mathlib.Core.List.{append_assoc}
use mathlib.Core.Logic.{if_pos, if_neg}
use text.Mathlib.TextLemmas.{nil-append, cons-append}
use kernmini.Prelude.{
  ◌≡◌, refl, ap, ◌∙◌, ◌≢◌, String, string_eq, List, [], ◌∷◌, ◌++◌, ◌==◌, arith, Bool-cases, inl,
  inr, if◌then◌else◌,
}
use kernmini.Prelude.Text.{concat}
use kernmini.Language.{stream, display, ContextMessage, event}
use kernmini.Engine.Pump.{coalesce, gather}

-- A stream message is its characters, each under the stream's name; another message is itself.
pub data Atom : Type 0 where
  char : String → Char → Atom
  whole : ContextMessage → Atom

abbrev pub text_atoms : String → String → List Atom
text_atoms name String.[] = []
text_atoms name (String.◌∷◌ c text) = char name c ∷ text_atoms name text

abbrev pub atoms : List ContextMessage → List Atom
atoms [] = []
atoms (event (stream name text) ∷ messages) = text_atoms name text ++ atoms messages
atoms (m ∷ messages) = whole m ∷ atoms messages

text_atoms-concat :
    (name text more : String)
    → text_atoms name (concat text more) ≡ text_atoms name text ++ text_atoms name more
unfolding concat
text_atoms-concat name String.[] more = rw (nil-append more)
text_atoms-concat name (String.◌∷◌ c text) more =
    rw (cons-append c text more) (ap (◌∷◌ (char name c)) (text_atoms-concat name text more))

-- One step of the inner loop, whichever way its test goes.
either :
    (next name text more : String) (messages longer other : List ContextMessage)
    → atoms longer ≡ text_atoms name (concat text more) ++ atoms messages
    → atoms other ≡ text_atoms next more ++ atoms messages
    → atoms (if next == name then longer else event (stream name text) ∷ other)
      ≡ text_atoms name text ++ (text_atoms next more ++ atoms messages)
either next name text more messages longer other h k = elim (string_eq.dec next name) [
  | yes same ↦
      rw (if_pos _ same)
        (h ∙ rw (text_atoms-concat name text more, same) (append_assoc (text_atoms name text) _ _))
  | no differ ↦ rw (if_neg _ differ) (ap (◌++◌ (text_atoms name text)) k)
]

mutual
  unfolding coalesce gather

  atoms-coalesce' : (messages : List ContextMessage) → atoms (coalesce messages) ≡ atoms messages
  atoms-coalesce' [] = refl
  atoms-coalesce' (event (stream name text) ∷ messages) = atoms-gather messages name text
  atoms-coalesce' (m ∷ messages) = ap (◌∷◌ (whole m)) (atoms-coalesce' messages)

  atoms-gather :
      (messages : List ContextMessage) (name text : String)
      → atoms (gather messages name text) ≡ text_atoms name text ++ atoms messages
  atoms-gather [] name text = refl
  atoms-gather (event (stream next more) ∷ messages) name text =
      either next name text more messages _ _ (atoms-gather messages name (concat text more))
        (atoms-gather messages next more)
  atoms-gather (m ∷ messages) name text =
      ap (λ l. text_atoms name text ++ whole m ∷ l) (atoms-coalesce' messages)

-- A batch after the joining of its streams says the same, character for character and message for
-- message.
pub atoms-coalesce : (messages : List ContextMessage) → atoms (coalesce messages) ≡ atoms messages
atoms-coalesce messages = atoms-coalesce' messages

-- The batch does not go on with the stream of that name.
abbrev pub StartsOther : String → List ContextMessage → Type 0
StartsOther name (event (stream next more) ∷ messages) = next ≢ name
StartsOther name _ = Unit

abbrev pub IsJoined : List ContextMessage → Type 0
IsJoined [] = Unit
IsJoined (event (stream name text) ∷ messages) = StartsOther name messages × IsJoined messages
IsJoined (m ∷ messages) = IsJoined messages

gather-StartsOther :
    (messages : List ContextMessage) (name text other : String)
    → name ≢ other
    → StartsOther other (gather messages name text)
unfolding gather
gather-StartsOther [] name text other h = h
gather-StartsOther (event (stream next more) ∷ messages) name text other h =
    elim (Bool-cases (next == name)) [
      | inl e ↦ rw e (gather-StartsOther messages name (concat text more) other h)
      | inr e ↦ rw e h
    ]
gather-StartsOther (m ∷ messages) name text other h = h

mutual
  unfolding coalesce gather

  coalesce-IsJoined' : (messages : List ContextMessage) → IsJoined (coalesce messages)
  coalesce-IsJoined' [] = tt
  coalesce-IsJoined' (event (stream name text) ∷ messages) = gather-IsJoined messages name text
  coalesce-IsJoined' (event (display e b) ∷ messages) = coalesce-IsJoined' messages
  coalesce-IsJoined' (m ∷ messages) = coalesce-IsJoined' messages

  gather-IsJoined :
      (messages : List ContextMessage) (name text : String) → IsJoined (gather messages name text)
  gather-IsJoined [] name text = (tt, tt)
  gather-IsJoined (event (stream next more) ∷ messages) name text =
      elim (Bool-cases (next == name)) [
        | inl e ↦ rw e (gather-IsJoined messages name (concat text more))
        | inr e ↦ rw e (
          gather-StartsOther messages next more name (ground arith),
          gather-IsJoined messages next more,
        )
      ]
  gather-IsJoined (m ∷ messages) name text = (tt, coalesce-IsJoined' messages)

-- In a batch after the joining no two stream messages of one name stand side by side.
pub coalesce-IsJoined : (messages : List ContextMessage) → IsJoined (coalesce messages)
coalesce-IsJoined messages = coalesce-IsJoined' messages
