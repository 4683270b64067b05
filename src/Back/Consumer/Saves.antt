-- ===== src/Back/Consumer/Saves.antt =====
-- What the threads that save chunks leave in the file system.
use gateway_poc.Base.{
  ◌≡◌, refl, sym, Bool, true, false, Option, none, some, List, [], ◌∷◌, if◌then◌else◌, arith,
}
use gateway_poc.Base.Bytes.{Bytes, str_eq, str_eq_iff}
use gateway_poc.Back.Message.{Message}
use gateway_poc.Back.Consumer.{
  Files, write_file, file_name, full_path, file_content, save_messages, run_jobs,
}

pub read_file : Bytes → Files → Option Bytes
read_file q [] = none
read_file q ((p, content) ∷ files) = if str_eq p q then some content else read_file q files

-- Names are compared by what they are equal to, so the tests are looked at as facts.
read-write :
    (p q content : Bytes) (files : Files)
    → read_file q (write_file p content files)
      ≡ (if str_eq p q then some content else read_file q files)
unfolding read_file write_file
read-write p q content [] = refl
read-write p q content ((r, old) ∷ files) =
    ground (arith, str_eq_iff p q, str_eq_iff r p, str_eq_iff r q, read-write p q content files)

abbrev pub path_of : Bytes → List Message → Bytes
path_of folder ms = full_path folder (file_name ms)

-- A chunk whose file can be opened is found whole under its name, whatever stood there before; any
-- other file is as it was.
pub read-save_messages :
    (opens : Bytes → Bool) (folder q : Bytes) (m : Message) (ms : List Message) (files : Files)
    → opens (path_of folder (m ∷ ms)) ≡ true
    → read_file q (save_messages opens folder (m ∷ ms) files) ≡ (
        if str_eq (path_of folder (m ∷ ms)) q
        then some (file_content (m ∷ ms))
        else read_file q files)
unfolding save_messages
read-save_messages opens folder q m ms files h =
    rw h (read-write (path_of folder (m ∷ ms)) q (file_content (m ∷ ms)) files)

writes_commute :
    (p r q content other : Bytes) (files : Files)
    → str_eq p r ≡ false
    → read_file q (write_file p content (write_file r other files))
      ≡ read_file q (write_file r other (write_file p content files))
writes_commute p r q content other files apart = ground (
  arith,
  str_eq_iff p q,
  str_eq_iff r q,
  str_eq_iff p r,
  read-write p q content (write_file r other files),
  read-write r q other files,
  read-write r q other (write_file p content files),
  read-write p q content files,
)

-- Two threads that save chunks under different names, both of which can be opened, leave the same
-- files in either order.
pub save_messages_commute :
    (opens : Bytes → Bool) (folder q : Bytes) (m k : Message) (ms ks : List Message) (files : Files)
    → opens (path_of folder (m ∷ ms)) ≡ true
    → opens (path_of folder (k ∷ ks)) ≡ true
    → str_eq (path_of folder (m ∷ ms)) (path_of folder (k ∷ ks)) ≡ false
    → read_file q (run_jobs opens folder ((m ∷ ms) ∷ (k ∷ ks) ∷ []) files)
      ≡ read_file q (run_jobs opens folder ((k ∷ ks) ∷ (m ∷ ms) ∷ []) files)
unfolding run_jobs
save_messages_commute opens folder q m k ms ks files a b apart =
    rw (a, b)
      (sym (
        writes_commute (path_of folder (m ∷ ms)) (path_of folder (k ∷ ks)) q (file_content (m ∷ ms))
          (file_content (k ∷ ks)) files apart))

-- Where no file can be opened, the chunks that the consumer has taken leave no trace.
pub run_jobs_unwritable :
    (opens : Bytes → Bool) (folder : Bytes) (jobs : List (List Message)) (files : Files)
    → ((path : Bytes) → opens path ≡ false)
    → run_jobs opens folder jobs files ≡ files
unfolding run_jobs
run_jobs_unwritable opens folder [] files h = refl
run_jobs_unwritable opens folder ([] ∷ jobs) files h = run_jobs_unwritable opens folder jobs files h
run_jobs_unwritable opens folder ((m ∷ ms) ∷ jobs) files h =
    rw (h (path_of folder (m ∷ ms))) (run_jobs_unwritable opens folder jobs files h)
