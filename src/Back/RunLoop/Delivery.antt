-- ===== src/Back/RunLoop/Delivery.antt =====
-- What the loop promises over a storage that keeps its messages in order.
use mathlib.Core.List.{Mem, mem-append, mem-append_left, mem-append_right, append_assoc, append-nil}
use mathlib.Core.Logic.{∥∥₁_elim}
use gateway_poc.Base.{
  ℕ, zero, suc, ◌≡◌, ◌≢◌, refl, sym, ap, ◌∙◌, ◌⊎◌, inl, inr, Option, some, List, [], ◌∷◌, ◌++◌,
}
use gateway_poc.Base.Outcome.{Outcome, ok, throw, fault}
use gateway_poc.Back.Message.{Message}
use gateway_poc.Back.Consumer.{consume}
use gateway_poc.Back.Consumer.Chunks.{IsOpen, ids, consume-Taken}
use gateway_poc.Back.Storage.{IsStorage}
use gateway_poc.Back.RunLoop.{
  Producer, LoopState, pause, marked, after_consume, received, round, run_loop,
}
use gateway_poc.Back.RunLoop.Taken.{taken, concat-consume, move}

module _ {S E : Type 0} (p : Producer S E) (stored : S → List Message) where
  -- All messages of a state: those taken, then those still stored.
  abbrev pub held : LoopState S → List Message
  held s = taken s ++ stored s.storage

  -- The messages moved on by one another's side: none lost, none doubled, none out of order.
  abbrev pub Clean : LoopState S → LoopState S → Type 0
  Clean s s' = (more : List Message) × (held s' ≡ held s ++ more)

  -- The messages were taken and, since marking them failed, stayed in the storage as well.
  abbrev pub Repeated : LoopState S → LoopState S → Type 0
  Repeated s s' =
      (ms : List Message) × (more : List Message) × (given : List Message) × (storage : S) × (e : E)
      × (taken s' ≡ taken s ++ ms)
      × (stored s'.storage ≡ stored s.storage ++ more)
      × ((p.mark_consumed given storage).0 ≡ throw e)

  abbrev pub Goes : LoopState S → Option (LoopState S) → Type 0
  Goes s r = (s' : LoopState S) × (r ≡ some s') × IsOpen s'.consumer × (Clean s s' ⊎ Repeated s s')

module _ {S E : Type 0} (p : Producer S E) (stored : S → List Message) (law : IsStorage p stored)
    (s : LoopState S) (open_before : IsOpen s.consumer) where
  marked-Goes :
      (m : Message) (ms given rest more : List Message) (t : LoopState S)
      → IsOpen t.consumer
      → taken t ≡ taken s ++ (m ∷ ms)
      → ids given ≡ ids (m ∷ ms)
      → stored t.storage ≡ (m ∷ ms) ++ rest
      → stored t.storage ≡ stored s.storage ++ more
      → (o : Outcome E (Unit {0})) → (p.mark_consumed given t.storage).0 ≡ o
      → Goes p stored s (marked t (o, (p.mark_consumed given t.storage).1))
  unfolding marked pause
  marked-Goes m ms given rest more t op tk same head grown (ok done) e =
      let (more', left) = law.deleted t.storage m ms given rest same head e in
      (
        record t { storage = (p.mark_consumed given t.storage).1 },
        refl,
        op,
        inl (
          more ++ more',
          move (taken s) (taken t) (m ∷ ms) rest more more' (stored s.storage) _ tk
              (sym grown ∙ head) left,
        ),
      )
  marked-Goes m ms given rest more t op tk same head grown (throw x) e =
      let (more', either) = law.delete_failed t.storage x m ms given rest same head e in
      (
        pause (record t { storage = (p.mark_consumed given t.storage).1 }),
        refl,
        op,
        elim either [
          | inl left ↦ inl (
            more ++ more',
            move (taken s) (taken t) (m ∷ ms) rest more more' (stored s.storage) _ tk
                (sym grown ∙ head) left,
          )
          | inr kept ↦ inr (
            m ∷ ms,
            more ++ more',
            given,
            t.storage,
            x,
            tk,
            kept
                ∙ ap (λ (y : List Message). y ++ more') grown
                ∙ append_assoc (stored s.storage) more more',
            e,
          )
        ],
      )
  marked-Goes m ms given rest more t op tk same head grown fault e =
      absurd (law.delete_defined t.storage m ms given same e)

  -- A round that only pauses.
  pause-Goes :
      (storage : S)
      → (more : List Message) × (stored storage ≡ stored s.storage ++ more)
      → Goes p stored s (some (pause (record s { storage = storage })))
  unfolding pause
  pause-Goes storage (more, grown) = (
    pause (record s { storage = storage }),
    refl,
    open_before,
    inl (more, ap (◌++◌ (taken s)) grown ∙ sym (append_assoc (taken s) (stored s.storage) more)),
  )

  received-Goes :
      (o : Outcome E (List Message))
      → (p.get_next s.storage).0 ≡ o
      → Goes p stored s (received p s (o, (p.get_next s.storage).1))
  unfolding received after_consume
  received-Goes (ok []) e =
      let (rest, more, head, grown) = law.fetched s.storage [] e in
      pause-Goes (p.get_next s.storage).1 (more, grown)
  received-Goes (ok (m ∷ ms)) e =
      let (rest, more, head, grown) = law.fetched s.storage (m ∷ ms) e in
      let r = consume s.consumer (m ∷ ms) in
      let (accepted, same, t) = consume-Taken s.consumer (m ∷ ms) open_before in
      let s' : LoopState S = record s {
        storage = (p.get_next s.storage).1;
        consumer = r.consumer;
        jobs = s.jobs ++ r.jobs;
      } in
      rw accepted (
        marked-Goes m ms r.messages rest more s' t.is_open
          (concat-consume s.consumer (m ∷ ms) s.jobs (r.consumer, r.jobs) t) same head grown
          (p.mark_consumed r.messages s'.storage).0 refl)
  received-Goes (throw x) e = pause-Goes (p.get_next s.storage).1 (law.fetch_failed s.storage x e)
  received-Goes fault e = absurd (law.fetch_defined s.storage e)

  -- Over a lawful storage, and with a buffer below its chunk, a round ends with such a buffer, and
  -- either moves messages from the storage to the consumer, adding only what others have stored
  -- meanwhile, or leaves what it took in the storage because marking it failed.
  pub round-Goes : Goes p stored s (round p s)
  unfolding round
  round-Goes = received-Goes (p.get_next s.storage).0 refl

pub run_loop-suc :
    {S E : Type 0} (p : Producer S E) (rounds : ℕ) (s s' : LoopState S)
    → round p s ≡ some s'
    → run_loop (suc rounds) p s ≡ run_loop rounds p s'
unfolding run_loop
run_loop-suc p rounds s s' e = rw (e, run_loop)

module _ {S E : Type 0} (p : Producer S E) (stored : S → List Message)
    (law : IsStorage p stored) where
  Repeated-Mem :
      (s s' : LoopState S) (a : Message)
      → Repeated p stored s s'
      → Mem a (held p stored s)
      → Mem a (held p stored s')
  Repeated-Mem s s' a (ms, more, given, storage, e, tk, grown, failed) m =
      rw (tk, grown)
        (∥∥₁_elim (mem-append.0 m) squash₁ λ where_to. elim where_to [
          | inl was_taken ↦ mem-append_left _ (mem-append_left ms was_taken)
          | inr was_stored ↦ mem-append_right _ (mem-append_left more was_stored)
        ])

  Goes-Mem :
      (s s' : LoopState S) (a : Message)
      → Clean p stored s s' ⊎ Repeated p stored s s'
      → Mem a (held p stored s)
      → Mem a (held p stored s')
  Goes-Mem s s' a (inl (more, moved)) m = rw moved (mem-append_left more m)
  Goes-Mem s s' a (inr r) m = Repeated-Mem s s' a r m

  -- At least once: over a lawful storage, whose calls may fail, and with a buffer below its chunk,
  -- any number of rounds ends in a state, and each message that was taken or stored before is taken
  -- or stored after.
  pub run_loop-Mem :
      (rounds : ℕ) (s : LoopState S)
      → IsOpen s.consumer
      → (s' : LoopState S) × (run_loop rounds p s ≡ some s')
        × ((a : Message) → Mem a (held p stored s) → Mem a (held p stored s'))
  unfolding run_loop
  run_loop-Mem zero s v = (s, refl, λ a m. m)
  run_loop-Mem (suc rounds) s v =
      let (s₁, first, v₁, goes) = round-Goes p stored law s v in
      let (s₂, rest, keeps) = run_loop-Mem rounds s₁ v₁ in
      (s₂, run_loop-suc p rounds s s₁ first ∙ rest, λ a m. keeps a (Goes-Mem s s₁ a goes m))

  Goes-Clean :
      (s s' : LoopState S)
      → Clean p stored s s' ⊎ Repeated p stored s s'
      → ((given : List Message) (storage : S) (e : E) → (p.mark_consumed given storage).0 ≢ throw e)
      → Clean p stored s s'
  Goes-Clean s s' (inl c) never = c
  Goes-Clean s s' (inr (ms, more, given, storage, e, tk, grown, failed)) never =
      absurd (never given storage e failed)

  -- Exactly once and in order: over a lawful storage whose marking never fails, and with a buffer
  -- below its chunk, any number of rounds ends in a state in which the messages taken, followed by
  -- those still stored, are the same list as before, with what others have stored behind it.
  pub run_loop-Clean :
      (rounds : ℕ) (s : LoopState S)
      → IsOpen s.consumer
      → ((given : List Message) (storage : S) (e : E) → (p.mark_consumed given storage).0 ≢ throw e)
      → (s' : LoopState S) × (run_loop rounds p s ≡ some s') × Clean p stored s s'
  unfolding run_loop
  run_loop-Clean zero s v never = (s, refl, ([], sym (append-nil (held p stored s))))
  run_loop-Clean (suc rounds) s v never =
      let (s₁, first, v₁, goes) = round-Goes p stored law s v in
      let (more, moved) = Goes-Clean s s₁ goes never in
      let (s₂, rest, (more', moved')) = run_loop-Clean rounds s₁ v₁ never in
      (
        s₂,
        run_loop-suc p rounds s s₁ first ∙ rest,
        (
          more ++ more',
          moved'
              ∙ ap (λ (x : List Message). x ++ more') moved
              ∙ append_assoc (held p stored s) more more',
        ),
      )
