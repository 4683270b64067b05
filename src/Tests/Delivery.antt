-- ===== src/Tests/Delivery.antt =====
-- The loop of the back over a storage that is a list: a fetch gives its first two messages, and a
-- mark removes as many as it is given, or fails.
use gateway_poc.Base.{
  ◌≡◌, ◌≢◌, refl, sym, ap, ◌∙◌, inr, Bool, true, false, some, List, [], ◌∷◌, ◌++◌, length, drop,
  if◌then◌else◌, arith,
}
use mathlib.Core.List.{append-nil, Mem}
use gateway_poc.Base.Bytes.{Bytes, codes}
use gateway_poc.Base.Outcome.{Outcome, ok, throw, ok-injective}
use gateway_poc.Back.Message.{Message}
use gateway_poc.Back.Consumer.{MessageConsumer, consume}
use gateway_poc.Back.Consumer.Chunks.{IsOpen, Taken, ids, consume-Taken}
use gateway_poc.Back.RunLoop.{Producer, LoopState, run_loop}
use gateway_poc.Back.Storage.{IsStorage}
use gateway_poc.Back.RunLoop.Progress.{Answers, run_loop-Drained}
use gateway_poc.Back.RunLoop.Taken.{taken}
use gateway_poc.Back.RunLoop.Delivery.{held, Clean, run_loop-Mem, run_loop-Clean}

abbrev oldest : List Message → List Message
oldest [] = []
oldest (m ∷ []) = m ∷ []
oldest (m ∷ k ∷ ms) = m ∷ k ∷ []

abbrev pub queue : Bool → Producer (List Message) Bytes
queue failing = record {
  get_next = λ s. (ok (oldest s), s);
  mark_consumed =
      λ given s. if failing then (throw (codes "down"), s) else (ok tt, drop (length given) s);
}

oldest-split : (s : List Message) → (rest : List Message) × (s ≡ oldest s ++ rest)
oldest-split [] = ([], refl)
oldest-split (m ∷ []) = ([], refl)
oldest-split (m ∷ k ∷ ms) = (ms, refl)

drop-ids :
    (given ms rest : List Message) → ids given ≡ ids ms → drop (length given) (ms ++ rest) ≡ rest
drop-ids [] [] rest e = refl
drop-ids [] (m ∷ ms) rest e = cc
drop-ids (g ∷ given) [] rest e = cc
drop-ids (g ∷ given) (m ∷ ms) rest e = drop-ids given ms rest (ground arith)

oldest-fetched :
    (s ms : List Message)
    → ◌≡◌ {A = Outcome Bytes (List Message)} (ok (oldest s)) (ok ms)
    → (rest : List Message) × (more : List Message) × (s ≡ ms ++ rest) × (s ≡ s ++ more)
oldest-fetched s ms e =
    let (rest, split) = oldest-split s in
    (rest, [], split ∙ ap (λ (x : List Message). x ++ rest) (ok-injective e), sym (append-nil s))

abbrev pub all_stored : List Message → List Message
all_stored s = s

pub queue-IsStorage : (failing : Bool) → IsStorage (queue failing) all_stored
queue-IsStorage true = record {
  fetched = oldest-fetched;
  fetch_failed = λ s e h. cc;
  fetch_defined = λ s h. cc;
  deleted = λ s m ms given rest same split h. cc;
  delete_failed = λ s e m ms given rest same split h. ([], inr (sym (append-nil s)));
  delete_defined = λ s m ms given same h. cc;
}
queue-IsStorage false = record {
  fetched = oldest-fetched;
  fetch_failed = λ s e h. cc;
  fetch_defined = λ s h. cc;
  deleted = λ s m ms given rest same split h. (
    [],
    ap (drop (length given)) split ∙ drop-ids given (m ∷ ms) rest same ∙ sym (append-nil rest),
  );
  delete_failed = λ s e m ms given rest same split h. cc;
  delete_defined = λ s m ms given same h. cc;
}

abbrev pub first_message : Message
first_message = record { id = 1; payload = codes "one" }

abbrev pub second_message : Message
second_message = record { id = 2; payload = codes "two" }

abbrev third_message : Message
third_message = record { id = 4; payload = codes "three" }

abbrev a_consumer : MessageConsumer
a_consumer = record { chunk_size = 2; output_folder = codes "out"; buffer = third_message ∷ [] }

a_consumer-IsOpen : IsOpen a_consumer
a_consumer-IsOpen = record { positive = omega arith; room = omega arith }

abbrev a_loop : LoopState (List Message)
a_loop = record {
  storage = first_message ∷ second_message ∷ third_message ∷ [];
  consumer = a_consumer;
  jobs = [];
  pauses = 0;
}

run_loop-Mem_example :
    (s' : LoopState (List Message)) × (run_loop 3 (queue true) a_loop ≡ some s')
    × ((a : Message)
        → Mem a (held (queue true) all_stored a_loop)
        → Mem a (held (queue true) all_stored s'))
run_loop-Mem_example =
    run_loop-Mem (queue true) all_stored (queue-IsStorage true) 3 a_loop a_consumer-IsOpen

never_fails :
    (given : List Message) (storage : List Message) (e : Bytes)
    → ((queue false).mark_consumed given storage).0 ≢ throw e
never_fails given storage e h = cc

run_loop-Clean_example :
    (s' : LoopState (List Message)) × (run_loop 3 (queue false) a_loop ≡ some s')
    × Clean (queue false) all_stored a_loop s'
run_loop-Clean_example =
    run_loop-Clean (queue false) all_stored (queue-IsStorage false) 3 a_loop a_consumer-IsOpen
      never_fails

oldest-none :
    (s : List Message) → ◌≡◌ {A = Outcome Bytes (List Message)} (ok (oldest s)) (ok []) → s ≡ []
oldest-none [] e = refl
oldest-none (m ∷ []) e = cc
oldest-none (m ∷ k ∷ ms) e = cc

pub queue-Answers : Answers (queue false) all_stored
queue-Answers = record {
  gives = λ s. (oldest s, refl);
  gives_some = oldest-none;
  marks = λ s m ms given rest same head. refl;
}

run_loop-Drained_example :
    (s' : LoopState (List Message)) × (later : List Message) × (run_loop 3 (queue false) a_loop
      ≡ some s')
    × IsOpen s'.consumer
    × (taken s' ≡ (taken a_loop ++ a_loop.storage) ++ later)
run_loop-Drained_example =
    run_loop-Drained (queue false) all_stored (queue-IsStorage false) queue-Answers 3 a_loop
      a_loop.storage [] a_consumer-IsOpen refl (omega arith)

consume-Taken_example :
    let r = consume a_consumer (first_message ∷ second_message ∷ []) in
    (r.result ≡ true)
    × (ids r.messages ≡ ids (first_message ∷ second_message ∷ []))
    × Taken a_consumer (first_message ∷ second_message ∷ []) (r.consumer, r.jobs)
consume-Taken_example =
    consume-Taken a_consumer (first_message ∷ second_message ∷ []) a_consumer-IsOpen
