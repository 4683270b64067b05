-- ===== src/Back/Program/Saved.antt =====
-- What the back has saved when it ends, over a storage that answers its calls.
use mathlib.Core.List.{append_assoc, append-nil, Mem, Perm}
use gateway_poc.Base.{
  ℕ, ◌<◌, ◌≤◌, ◌≡◌, refl, sym, ap, subst, ◌∙◌, Bool, true, some, List, [], ◌∷◌, ◌++◌, length,
  concat, All, All-append,
}
use gateway_poc.Base.Bytes.{Bytes}
use gateway_poc.Back.Config.{ConsumerConfig}
use gateway_poc.Back.Message.{Message}
use gateway_poc.Back.Consumer.{Files, make_consumer, file_content, run_jobs}
use gateway_poc.Back.Consumer.Disk.{Filled, Increasing, run_jobs-saved}
use gateway_poc.Back.Consumer.FileNames.{Fits}
use gateway_poc.Back.Consumer.Saves.{read_file, path_of}
use gateway_poc.Back.Storage.{IsStorage}
use gateway_poc.Back.RunLoop.{Producer, LoopState, run_loop}
use gateway_poc.Back.RunLoop.Chunked.{Sound, run_loop-Sound}
use gateway_poc.Back.RunLoop.Delivery.{run_loop-Mem}
use gateway_poc.Back.RunLoop.Progress.{Answers, run_loop-Drained}
use gateway_poc.Back.Program.{fresh, last_chunk, chunks}

All-last_chunk : (buffer : List Message) → All Filled (last_chunk buffer)
All-last_chunk [] = tt
All-last_chunk (m ∷ buffer) = (λ e. cc, tt)

concat-chunks :
    (jobs : List (List Message)) (buffer : List Message)
    → concat (jobs ++ last_chunk buffer) ≡ concat jobs ++ buffer
concat-chunks [] [] = refl
concat-chunks [] (m ∷ buffer) = append-nil (m ∷ buffer)
concat-chunks (job ∷ jobs) buffer =
    ap (◌++◌ job) (concat-chunks jobs buffer) ∙ sym (append_assoc job (concat jobs) buffer)

fresh-Sound :
    {S : Type 0} (storage : S) (config : ConsumerConfig)
    → 0 < config.chunk_size
    → Sound (fresh storage config)
unfolding make_consumer
fresh-Sound storage config h = record { is_open = record { positive = h; room = h }; filled = tt }

module _ {S E : Type 0} (p : Producer S E) (config : ConsumerConfig)
    (positive : 0 < config.chunk_size) where
  chunks-All :
      (rounds : ℕ) (storage : S) (s' : LoopState S)
      → run_loop rounds p (fresh storage config) ≡ some s'
      → All Filled (chunks s')
  chunks-All rounds storage s' ran =
      let sound =
        run_loop-Sound p rounds (fresh storage config) s' (fresh-Sound storage config positive)
          ran in
      All-append Filled s'.jobs (last_chunk s'.consumer.buffer) sound.filled (All-last_chunk _)

  -- A back with a positive chunk, over a lawful storage whose calls return and whose empty answers
  -- are true: once its loop has run at least as often as there were messages at the start, the
  -- chunks that its threads and its consumer's destructor are given to save are not empty, and
  -- together they are those messages, in order, with what came later behind.
  pub chunks-Delivered :
      (stored : S → List Message)
      → IsStorage p stored
      → Answers p stored
      → (rounds : ℕ) (storage : S) → length (stored storage) ≤ rounds
      → (s' : LoopState S) × (later : List Message) × (run_loop rounds p (fresh storage config)
          ≡ some s')
        × All Filled (chunks s')
        × (concat (chunks s') ≡ stored storage ++ later)
  unfolding make_consumer
  chunks-Delivered stored law answers rounds storage enough =
      let (s', later, ran, op, took) =
        run_loop-Drained p stored law answers rounds (fresh storage config) (stored storage) []
          (fresh-Sound storage config positive).is_open (sym (append-nil (stored storage)))
          enough in
      (
        s',
        later,
        ran,
        chunks-All rounds storage s' ran,
        concat-chunks s'.jobs s'.consumer.buffer ∙ took,
      )

  -- However often its loop runs over a lawful storage and whatever calls fail, the loop ends, no
  -- chunk that is given to be saved is empty, and each message that was stored at the start is in
  -- one of them or still stored.
  pub chunks-Kept :
      (stored : S → List Message)
      → IsStorage p stored
      → (rounds : ℕ) (storage : S)
      → (s' : LoopState S) × (run_loop rounds p (fresh storage config) ≡ some s')
        × All Filled (chunks s')
        × ((a : Message) → Mem a (stored storage) → Mem a (concat (chunks s') ++ stored s'.storage))
  unfolding make_consumer
  chunks-Kept stored law rounds storage =
      let (s', ran, keeps) =
        run_loop-Mem p stored law rounds (fresh storage config)
          (fresh-Sound storage config positive).is_open in
      (
        s',
        ran,
        chunks-All rounds storage s' ran,
        λ a m.
            subst (λ (x : List Message). Mem a (x ++ stored s'.storage))
              (sym (concat-chunks s'.jobs s'.consumer.buffer)) (keeps a m),
      )

  -- Where the ids of what a back has taken rise and fit in 64 bits, and every file can be opened:
  -- whatever the order in which the threads and the destructor save the chunks, each is found whole
  -- in its file.
  pub chunks-saved :
      (rounds : ℕ) (storage : S) (s' : LoopState S) (opens : Bytes → Bool) (files : Files)
      (order : List (List Message)) (job : List Message)
      → run_loop rounds p (fresh storage config) ≡ some s'
      → Increasing (concat (chunks s'))
      → All (λ c. All Fits c) (chunks s')
      → Perm (chunks s') order
      → ((c : List Message) → Mem c (chunks s') → opens (path_of config.output_folder c) ≡ true)
      → Mem job (chunks s')
      → read_file
          (path_of config.output_folder job)
          (run_jobs opens config.output_folder order files)
        ≡ some (file_content job)
  chunks-saved rounds storage s' opens files order job ran rising fit shuffled writable m =
      run_jobs-saved opens config.output_folder (chunks s') order files rising
        (chunks-All rounds storage s' ran) fit shuffled writable job m
