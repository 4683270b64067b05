-- ===== src/Back/Consumer/Disk.antt =====
-- What is in the file system once all the threads have saved their chunks, in whatever order.
use mathlib.Core.List.{
  Mem, not-mem-nil, mem-cons_self, mem-cons_of_mem, mem-cons, Nodup, Nodup-cons, Nodup-nil, Perm,
}
use mathlib.Core.List.Perm
use mathlib.Core.Logic.{∥∥₁_elim}
use mathlib.Core.HLevel.{⊥_prop, ¬_prop}
use gateway_poc.Base.{
  ℕ, ◌<◌, ◌≤◌, ◌≡◌, ◌≢◌, refl, sym, ap, subst, ◌∙◌, ◌⊎◌, inl, inr, Bool, true, false, Option, some,
  List, [], ◌∷◌, ◌++◌, map, concat, All, if◌then◌else◌, arith,
}
use gateway_poc.Base.Bytes.{Bytes, str_eq, str_eq_iff}
use gateway_poc.Back.Message.{Message}
use gateway_poc.Back.Consumer.{Files, file_name, full_path, file_content, save_messages, run_jobs}
use gateway_poc.Back.Consumer.FileNames.{read_name, Fits, Ascending, file_name-Ascending}
use gateway_poc.Back.Consumer.Saves.{read_file, path_of, read-save_messages}

found_prop : (q : Bytes) (files : Files) (o : Option Bytes) → IsProp (read_file q files ≡ o)
found_prop q files o = hlevel

module _ (opens : Bytes → Bool) (folder : Bytes) where
  -- A chunk that has messages and whose file can be opened.
  abbrev IsWritable : List Message → Type 0
  IsWritable job = (job ≢ []) × (opens (path_of folder job) ≡ true)

  read-saved :
      (q : Bytes) (job : List Message) (files : Files)
      → IsWritable job
      → read_file q (save_messages opens folder job files)
        ≡ (if str_eq (path_of folder job) q then some (file_content job) else read_file q files)
  read-saved q [] files w = absurd (w.0 refl)
  read-saved q (m ∷ ms) files w = read-save_messages opens folder q m ms files w.1

  read-saved_same :
      (job : List Message) (files : Files)
      → IsWritable job
      → read_file (path_of folder job) (save_messages opens folder job files)
        ≡ some (file_content job)
  read-saved_same job files w =
      let same : str_eq (path_of folder job) (path_of folder job) ≡ true =
        ground (arith, str_eq_iff (path_of folder job) (path_of folder job)) in
      rw same at (read-saved (path_of folder job) job files w)

  read-saved_other :
      (q : Bytes) (job : List Message) (files : Files)
      → IsWritable job
      → q ≢ path_of folder job
      → read_file q (save_messages opens folder job files) ≡ read_file q files
  read-saved_other q job files w apart =
      let other : str_eq (path_of folder job) q ≡ false =
        ground (arith, str_eq_iff (path_of folder job) q) in
      rw other at (read-saved q job files w)

  -- Chunks under other names leave a file as it is.
  read-run_jobs_other :
      (q : Bytes) (jobs : List (List Message)) (files : Files)
      → ((job : List Message) → Mem job jobs → IsWritable job)
      → ¬ Mem q (map (path_of folder) jobs)
      → read_file q (run_jobs opens folder jobs files) ≡ read_file q files
  unfolding run_jobs
  read-run_jobs_other q [] files w out = refl
  read-run_jobs_other q (job ∷ jobs) files w out =
      read-run_jobs_other q jobs (save_messages opens folder job files)
        (λ k m. w k (mem-cons_of_mem job m)) (λ m. out (mem-cons_of_mem _ m))
      ∙ read-saved_other q job files (w job mem-cons_self) (λ e.
        out
          (subst (λ (x : Bytes). Mem x (map (path_of folder) (job ∷ jobs))) (sym e) mem-cons_self))

  read-run_jobs :
      (jobs : List (List Message)) (files : Files) (job : List Message)
      → ((k : List Message) → Mem k jobs → IsWritable k)
      → Nodup (map (path_of folder) jobs)
      → Mem job jobs
      → read_file (path_of folder job) (run_jobs opens folder jobs files) ≡ some (file_content job)
  unfolding run_jobs
  read-run_jobs [] files job w apart m = absurd (not-mem-nil m)
  read-run_jobs (k ∷ jobs) files job w apart m =
      let (out, rest) = Nodup-cons.0 apart in
      ∥∥₁_elim (mem-cons.0 m) (found_prop _ _ _) (λ where_is. elim where_is [
        | inl same ↦
            subst
              (λ (x : List Message).
                read_file (path_of folder x) (run_jobs opens folder (k ∷ jobs) files)
                ≡ some (file_content x))
              (sym same)
              (read-run_jobs_other (path_of folder k) jobs (save_messages opens folder k files)
                  (λ j n. w j (mem-cons_of_mem k n)) out
                ∙ read-saved_same k files (w k mem-cons_self))
        | inr later ↦
            read-run_jobs jobs (save_messages opens folder k files) job
              (λ j n. w j (mem-cons_of_mem k n)) rest later
      ])

full_path-injective :
    (folder name name' : Bytes) → full_path folder name ≡ full_path folder name' → name ≡ name'
unfolding full_path
full_path-injective [] name name' e = e
full_path-injective (c ∷ []) name name' e = ground arith
full_path-injective (c ∷ d ∷ folder) name name' e =
    full_path-injective (d ∷ folder) name name' (ground arith)

-- The ids rise along the list, all above `n`.
abbrev pub Above : ℕ → List Message → Type 0
Above n [] = Unit {0}
Above n (m ∷ ms) = (n < m.id) × Above m.id ms

abbrev pub Increasing : List Message → Type 0
Increasing [] = Unit {0}
Increasing (m ∷ ms) = Above m.id ms

Above-lower : (n k : ℕ) (ms : List Message) → n ≤ k → Above k ms → Above n ms
Above-lower n k [] h a = tt
Above-lower n k (m ∷ ms) h a = (omega arith, a.1)

Above-left : (n : ℕ) (ms ks : List Message) → Above n (ms ++ ks) → Above n ms
Above-left n [] ks a = tt
Above-left n (m ∷ ms) ks a = (a.0, Above-left m.id ms ks a.1)

Above-right : (n : ℕ) (ms ks : List Message) → Above n (ms ++ ks) → Above n ks
Above-right n [] ks a = a
Above-right n (m ∷ ms) ks a = Above-lower n m.id ks (omega arith) (Above-right m.id ms ks a.1)

Above-Increasing : (n : ℕ) (ms : List Message) → Above n ms → Increasing ms
Above-Increasing n [] a = tt
Above-Increasing n (m ∷ ms) a = a.1

Above-Ascending : (n : ℕ) (ms : List Message) → Above n ms → Ascending n ms
Above-Ascending n [] a = tt
Above-Ascending n (m ∷ ms) a = (omega arith, Above-Ascending m.id ms a.1)

-- The first id of a chunk, read from the name of its file.
abbrev named : List Message → ℕ
named job = (read_name (file_name job)).0

abbrev pub Filled : List Message → Type 0
Filled job = job ≢ []

chunks-Behind :
    (n : ℕ) (jobs : List (List Message))
    → Above n (concat jobs)
    → All Filled jobs
    → All (λ job. All Fits job) jobs
    → All (λ job. n < named job) jobs
chunks-Behind n [] a filled fit = tt
chunks-Behind n ([] ∷ jobs) a filled fit = absurd (filled.0 refl)
chunks-Behind n ((m ∷ ms) ∷ jobs) a filled fit =
    let up = Above-Ascending m.id ms (Above-left m.id ms (concat jobs) a.1) in
    let first = ap (λ (r : ℕ × ℕ). r.0) (file_name-Ascending m ms fit.0 up).0 in
    (
      omega (arith, first),
      chunks-Behind n jobs
          (Above-lower n m.id (concat jobs) (omega arith) (Above-right m.id ms (concat jobs) a.1))
          filled.1 fit.1,
    )

behind-apart :
    (folder : Bytes) (job : List Message) (jobs : List (List Message)) (n : ℕ)
    → named job ≡ n
    → All (λ k. n < named k) jobs
    → ¬ Mem (path_of folder job) (map (path_of folder) jobs)
behind-apart folder job [] n e a m = not-mem-nil m
behind-apart folder job (k ∷ jobs) n e a m =
    ∥∥₁_elim {P = ⊥} (mem-cons.0 m) ⊥_prop (go (behind-apart folder job jobs n e a.1))
  where
    go :
        ¬ Mem (path_of folder job) (map (path_of folder) jobs)
        → (path_of folder job ≡ path_of folder k)
          ⊎ Mem (path_of folder job) (map (path_of folder) jobs)
        → ⊥
    go out (inl same) =
        let names : named job ≡ named k =
          ap (λ (x : Bytes). (read_name x).0)
            (full_path-injective folder (file_name job) (file_name k) same) in
        omega (arith, names, e, a.0)
    go out (inr later) = out later

Filled-Mem :
    (jobs : List (List Message)) (job : List Message) → All Filled jobs → Mem job jobs → Filled job
Filled-Mem [] job filled m = absurd (not-mem-nil m)
Filled-Mem (k ∷ jobs) job filled m =
    ∥∥₁_elim {P = Filled job} (mem-cons.0 m) ¬_prop (go (Filled-Mem jobs job filled.1))
  where
    go : (Mem job jobs → Filled job) → (job ≡ k) ⊎ Mem job jobs → Filled job
    go later (inl same) = subst Filled (sym same) filled.0
    go later (inr m) = later m

paths-Nodup :
    (folder : Bytes) (jobs : List (List Message))
    → Increasing (concat jobs)
    → All Filled jobs
    → All (λ job. All Fits job) jobs
    → Nodup (map (path_of folder) jobs)
paths-Nodup folder [] a filled fit = Nodup-nil
paths-Nodup folder ([] ∷ jobs) a filled fit = absurd (filled.0 refl)
paths-Nodup folder ((m ∷ ms) ∷ jobs) a filled fit =
    let up = Above-Ascending m.id ms (Above-left m.id ms (concat jobs) a) in
    let first = ap (λ (r : ℕ × ℕ). r.0) (file_name-Ascending m ms fit.0 up).0 in
    let above = Above-right m.id ms (concat jobs) a in
    Nodup-cons.1 (
      behind-apart folder (m ∷ ms) jobs m.id first (chunks-Behind m.id jobs above filled.1 fit.1),
      paths-Nodup folder jobs (Above-Increasing m.id (concat jobs) above) filled.1 fit.1,
    )

-- Chunks without an empty one, in which the ids rise from the first message of the first chunk to
-- the last of the last and fit in 64 bits, and whose files can all be opened: in whatever order the
-- threads that save them run, each chunk is found whole in its own file after them, whatever stood
-- there before.
pub run_jobs-saved :
    (opens : Bytes → Bool) (folder : Bytes) (started order : List (List Message)) (files : Files)
    → Increasing (concat started)
    → All Filled started
    → All (λ job. All Fits job) started
    → Perm started order
    → ((job : List Message) → Mem job started → opens (path_of folder job) ≡ true)
    → (job : List Message) → Mem job started
    → read_file (path_of folder job) (run_jobs opens folder order files) ≡ some (file_content job)
run_jobs-saved opens folder started order files a filled fit p w job m =
    read-run_jobs opens folder order files job
      (λ k n. let at = (Perm.mem_iff p).1 n in (Filled-Mem started k filled at, w k at))
      (Perm.nodup (Perm.map (path_of folder) p) (paths-Nodup folder started a filled fit))
      ((Perm.mem_iff p).0 m)
