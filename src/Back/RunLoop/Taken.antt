-- ===== src/Back/RunLoop/Taken.antt =====
-- The messages that the consumer of the loop has taken.
use mathlib.Core.List.{append_assoc}
use gateway_poc.Base.{◌≡◌, refl, sym, ap, ap₂, ◌∙◌, ◌≡⟨◌⟩◌, ◌∎, List, [], ◌∷◌, ◌++◌, concat}
use gateway_poc.Back.Message.{Message}
use gateway_poc.Back.Consumer.{MessageConsumer}
use gateway_poc.Back.Consumer.Chunks.{Taken}
use gateway_poc.Back.RunLoop.{LoopState}

-- The messages that the consumer has taken, in the order in which it took them.
abbrev pub taken : {S : Type 0} → LoopState S → List Message
taken s = concat s.jobs ++ s.consumer.buffer

concat-append : (xs ys : List (List Message)) → concat (xs ++ ys) ≡ concat xs ++ concat ys
concat-append [] ys = refl
concat-append (x ∷ xs) ys =
    ap (◌++◌ x) (concat-append xs ys) ∙ sym (append_assoc x (concat xs) (concat ys))

-- The consumer's chunks and its buffer grow by what it was handed.
pub concat-consume :
    (c : MessageConsumer) (ms : List Message) (before : List (List Message))
    (r : MessageConsumer × List (List Message))
    → Taken c ms r
    → concat (before ++ r.1) ++ r.0.buffer ≡ (concat before ++ c.buffer) ++ ms
concat-consume c ms before r t =
    concat (before ++ r.1) ++ r.0.buffer
    ≡⟨ ap (λ (x : List Message). x ++ r.0.buffer) (concat-append before r.1) ⟩
      (concat before ++ concat r.1) ++ r.0.buffer
    ≡⟨ append_assoc (concat before) (concat r.1) r.0.buffer ⟩
      concat before ++ (concat r.1 ++ r.0.buffer)
    ≡⟨ ap (◌++◌ (concat before)) t.conserved ⟩ concat before ++ (c.buffer ++ ms)
    ≡⟨ sym (append_assoc (concat before) c.buffer ms) ⟩ (concat before ++ c.buffer) ++ ms ∎

-- The messages `ms` at the head of a storage, which was `st` and has grown, move behind those that
-- were taken.
pub move :
    (a b ms rest more more' st st' : List Message)
    → b ≡ a ++ ms
    → st ++ more ≡ ms ++ rest
    → st' ≡ rest ++ more'
    → b ++ st' ≡ (a ++ st) ++ (more ++ more')
move a b ms rest more more' st st' tk head left =
    b ++ st'
    ≡⟨ ap₂ (λ (x y : List Message). x ++ y) tk left ⟩ (a ++ ms) ++ (rest ++ more')
    ≡⟨ append_assoc a ms (rest ++ more') ⟩ a ++ (ms ++ (rest ++ more'))
    ≡⟨ ap (◌++◌ a) (sym (append_assoc ms rest more')) ⟩ a ++ ((ms ++ rest) ++ more')
    ≡⟨ ap (λ (x : List Message). a ++ (x ++ more')) (sym head) ⟩ a ++ ((st ++ more) ++ more')
    ≡⟨ ap (◌++◌ a) (append_assoc st more more') ⟩ a ++ (st ++ (more ++ more'))
    ≡⟨ sym (append_assoc a st (more ++ more')) ⟩ (a ++ st) ++ (more ++ more') ∎
