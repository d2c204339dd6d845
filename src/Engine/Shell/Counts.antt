-- ===== src/Engine/Shell/Counts.antt =====
-- The execution counts of the shell in src/engine.rs.
use kernmini.Prelude.{
  ℕ, ◌+◌, ◌^◌, ◌<◌, ◌≡◌, refl, ap, ◌∙◌, Bool, not, ◌&&◌, List, [], ◌∷◌, arith, if◌then◌else◌,
  Bool-cases, inl, inr, count_if,
}
use kernmini.Language.{ExecuteRequest}
use kernmini.Engine.Shell.{Shell, u64, count_execution}

abbrev pub stores : ExecuteRequest → Bool
stores execution = execution.store_history && not execution.silent

-- The counts that the executions get in turn.
abbrev pub counts : Shell → List ExecuteRequest → List ℕ
counts shell [] = []
counts shell (e ∷ l) = let (after, count) = count_execution shell e in count ∷ counts after l

-- The numbering of DEV.md, with the count `n`: an execution that stores history takes the count and
-- advances it, and every other one uses it unchanged.
abbrev pub documented : ℕ → List ExecuteRequest → List ℕ
documented n [] = []
documented n (e ∷ l) =
    let rest = documented n l in
    let next = documented (n + 1) l in if stores e then n ∷ next else n ∷ rest

-- One more for each execution that does not store history.
abbrev pub one_more : List ExecuteRequest → List ℕ → List ℕ
one_more [] ns = []
one_more (e ∷ l) [] = []
one_more (e ∷ l) (n ∷ ns) = let rest = one_more l ns in (if stores e then n else n + 1) ∷ rest

-- The executions that store history are numbered from `n` on, the others get the number before.
abbrev pub numbered : ℕ → List ExecuteRequest → List ℕ
numbered n [] = []
numbered n (e ∷ l) =
    let rest = numbered n l in
    let next = numbered (n + 1) l in if stores e then (n + 1) ∷ next else n ∷ rest

counts-numbered' :
    (shell : Shell) (l : List ExecuteRequest)
    → shell.execution_count + count_if stores l < 2 ^ 64
    → counts shell l ≡ numbered shell.execution_count l
unfolding count_execution
counts-numbered' shell [] room = refl
counts-numbered' shell (e ∷ l) room = elim (Bool-cases (stores e)) [
  | inl s ↦
      let next : u64 (shell.execution_count + 1) ≡ shell.execution_count + 1 =
        omega (arith, rw s at room) in
      rw (s, next)
        (ap (◌∷◌ (shell.execution_count + 1)) (
          counts-numbered' (record shell { execution_count = shell.execution_count + 1 }) l
            (omega (arith, rw s at room))))
  | inr s ↦
      rw s (ap (◌∷◌ shell.execution_count) (counts-numbered' shell l (omega (arith, rw s at room))))
]

numbered-documented :
    (n : ℕ) (l : List ExecuteRequest) → one_more l (numbered n l) ≡ documented (n + 1) l
numbered-documented n [] = refl
numbered-documented n (e ∷ l) = elim (Bool-cases (stores e)) [
  | inl s ↦ rw (s, s) (ap (◌∷◌ (n + 1)) (numbered-documented (n + 1) l))
  | inr s ↦ rw (s, s) (ap (◌∷◌ (n + 1)) (numbered-documented n l))
]

-- The executions that store history get consecutive counts, from the one after the shell's, and the
-- others the count of the last one before them, as long as the counts fit into 64 bits. This is the
-- documented numbering from the count after the shell's, but for the executions that do not store
-- history: the documents give each of them one more.
pub counts-numbered :
    (shell : Shell) (l : List ExecuteRequest)
    → shell.execution_count + count_if stores l < 2 ^ 64
    → (counts shell l ≡ numbered shell.execution_count l)
      × (one_more l (counts shell l) ≡ documented (shell.execution_count + 1) l)
counts-numbered shell l room =
    let same = counts-numbered' shell l room in
    (same, ap (one_more l) same ∙ numbered-documented shell.execution_count l)
