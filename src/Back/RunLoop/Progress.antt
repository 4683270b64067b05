-- ===== src/Back/RunLoop/Progress.antt =====
-- What the loop reaches over a storage that answers its calls.
use mathlib.Core.List.{append_assoc, append-nil}
use gateway_poc.Base.{
  ℕ, zero, suc, ◌≤◌, ◌≡◌, refl, sym, ap, subst, ◌∙◌, inl, inr, Option, some, List, [], ◌∷◌, ◌++◌,
  length, length-append, no_left, cut-cases, arith,
}
use gateway_poc.Base.Outcome.{Outcome, ok}
use gateway_poc.Back.Message.{Message}
use gateway_poc.Back.Consumer.{consume}
use gateway_poc.Back.Consumer.Chunks.{IsOpen, ids, consume-Taken}
use gateway_poc.Back.Storage.{IsStorage}
use gateway_poc.Back.RunLoop.{
  Producer, LoopState, pause, marked, after_consume, received, round, run_loop,
}
use gateway_poc.Back.RunLoop.Taken.{taken, concat-consume}
use gateway_poc.Back.RunLoop.Delivery.{run_loop-suc}

module _ {S E : Type 0} (p : Producer S E) (stored : S → List Message) where
  -- A storage whose calls return, and whose empty answers are true.
  pub record Answers : Type 0 where
    pub gives : (s : S) → (ms : List Message) × ((p.get_next s).0 ≡ ok ms)
    pub gives_some : (s : S) → (p.get_next s).0 ≡ ok [] → stored s ≡ []
    pub marks :
        (s : S) (m : Message) (ms given rest : List Message)
        → ids given ≡ ids (m ∷ ms)
        → stored s ≡ (m ∷ ms) ++ rest
        → (p.mark_consumed given s).0 ≡ ok tt

  -- The messages `ms` moved from the head of the storage to the consumer.
  record Takes (s s' : LoopState S) (ms : List Message) : Type 0 where
    is_open : IsOpen s'.consumer
    took : taken s' ≡ taken s ++ ms
    more : List Message
    left : ms ++ stored s'.storage ≡ stored s.storage ++ more

module _ {S E : Type 0} (p : Producer S E) (stored : S → List Message) (law : IsStorage p stored)
    (answers : Answers p stored) where
  abbrev Advances : LoopState S → Option (LoopState S) → Type 0
  Advances s r =
      (s' : LoopState S) × (ms : List Message) × (r ≡ some s')
      × Takes p stored s s' ms
      × (ms ≡ [] → stored s.storage ≡ [])

  received-Advances :
      (s : LoopState S) (ms : List Message)
      → IsOpen s.consumer
      → (p.get_next s.storage).0 ≡ ok ms
      → Advances s (received p s (ok ms, (p.get_next s.storage).1))
  unfolding received pause after_consume marked
  received-Advances s [] op e =
      let (rest, more, head, grown) = law.fetched s.storage [] e in
      (
        pause (record s { storage = (p.get_next s.storage).1 }),
        [],
        refl,
        record { is_open = op; took = sym (append-nil (taken s)); more = more; left = grown },
        λ _. answers.gives_some s.storage e,
      )
  received-Advances s (m ∷ ms) op e =
      let (rest, more, head, grown) = law.fetched s.storage (m ∷ ms) e in
      let r = consume s.consumer (m ∷ ms) in
      let (accepted, same, t) = consume-Taken s.consumer (m ∷ ms) op in
      let fetched = (p.get_next s.storage).1 in
      let fine = answers.marks fetched m ms r.messages rest same head in
      let (more', left) = law.deleted fetched m ms r.messages rest same head fine in
      rw (accepted, fine)
        (
          record s {
            storage = (p.mark_consumed r.messages fetched).1;
            consumer = r.consumer;
            jobs = s.jobs ++ r.jobs;
          },
          m ∷ ms,
          refl,
          record {
            is_open = t.is_open;
            took = concat-consume s.consumer (m ∷ ms) s.jobs (r.consumer, r.jobs) t;
            more = more ++ more';
            left =
                ap (◌++◌ (m ∷ ms)) left
                ∙ sym (append_assoc (m ∷ ms) rest more')
                ∙ ap (λ (x : List Message). x ++ more') (sym head ∙ grown)
                ∙ append_assoc (stored s.storage) more more';
          },
          λ h. cc,
        )

  round-Advances : (s : LoopState S) → IsOpen s.consumer → Advances s (round p s)
  unfolding round
  round-Advances s op =
      let (ms, e) = answers.gives s.storage in
      subst
        (λ (o : Outcome E (List Message)). Advances s (received p s (o, (p.get_next s.storage).1)))
        (sym e) (received-Advances s ms op e)

  abbrev Drained : ℕ → List Message → LoopState S → Type 0
  Drained rounds first s =
      (s' : LoopState S) × (later : List Message) × (run_loop rounds p s ≡ some s')
      × IsOpen s'.consumer
      × (taken s' ≡ (taken s ++ first) ++ later)

  -- What is left of `first` behind the messages of a round is shorter.
  shorter :
      (rounds : ℕ) (ms mid first behind stock : List Message)
      → (ms ≡ [] → stock ≡ [])
      → stock ≡ first ++ behind
      → first ≡ ms ++ mid
      → length first ≤ suc rounds
      → length mid ≤ rounds
  shorter rounds [] mid first behind stock empty head split fits =
      let nothing : first ≡ [] = no_left first behind (sym head ∙ empty refl) in
      omega (arith, ap (λ (x : List Message). length x) (sym split ∙ nothing))
  shorter rounds (m ∷ ms) mid first behind stock empty head split fits =
      omega (arith, ap (λ (x : List Message). length x) split, length-append ms mid)

  -- The case of `run_loop-Drained` behind the first round.
  continued :
      (rounds : ℕ) (first : List Message) (s s₁ : LoopState S) (before mid : List Message)
      → round p s ≡ some s₁
      → taken s₁ ++ before ≡ (taken s ++ first) ++ mid
      → Drained rounds before s₁
      → Drained (suc rounds) first s
  continued rounds first s s₁ before mid step took (s₂, later, ran, op, took') = (
    s₂,
    mid ++ later,
    run_loop-suc p rounds s s₁ step ∙ ran,
    op,
    took' ∙ ap (λ (x : List Message). x ++ later) took ∙ append_assoc (taken s ++ first) mid later,
  )

  -- Over a lawful storage whose calls return and whose empty answers are true, and with a buffer
  -- below its chunk, as many rounds as there are messages at the head of the storage suffice: the
  -- loop ends with all of them taken, in their order behind those taken before, whatever others
  -- have stored meanwhile.
  pub run_loop-Drained :
      (rounds : ℕ) (s : LoopState S) (first behind : List Message)
      → IsOpen s.consumer
      → stored s.storage ≡ first ++ behind
      → length first ≤ rounds
      → Drained rounds first s
  unfolding run_loop
  run_loop-Drained zero s [] behind op head fits =
      (s, [], refl, op, sym (append-nil (taken s ++ []) ∙ append-nil (taken s)))
  run_loop-Drained zero s (m ∷ first) behind op head fits = absurd (omega arith)
  run_loop-Drained (suc rounds) s first behind op head fits =
      let (s₁, ms, step, takes, empty) = round-Advances s op in
      let split =
        takes.left
        ∙ ap (λ (x : List Message). x ++ takes.more) head
        ∙ append_assoc first behind takes.more in
      elim (cut-cases ms (stored s₁.storage) first (behind ++ takes.more) split) [
        | inl (mid, all, rest) ↦
            continued rounds first s s₁ [] mid step
              (append-nil (taken s₁)
                ∙ takes.took
                ∙ ap (◌++◌ (taken s)) all
                ∙ sym (append_assoc (taken s) first mid))
              (run_loop-Drained rounds s₁ [] (stored s₁.storage) takes.is_open refl (omega arith))
        | inr (mid, part, rest) ↦
            continued rounds first s s₁ mid [] step
              (ap (λ (x : List Message). x ++ mid) takes.took
                ∙ append_assoc (taken s) ms mid
                ∙ ap (◌++◌ (taken s)) (sym part)
                ∙ sym (append-nil (taken s ++ first)))
              (run_loop-Drained rounds s₁ mid (behind ++ takes.more) takes.is_open rest
                (shorter rounds ms mid first behind (stored s.storage) empty head part fits))
      ]
