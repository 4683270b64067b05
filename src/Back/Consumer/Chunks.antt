-- ===== src/Back/Consumer/Chunks.antt =====
-- What the buffer and the chunks of the consumer hold.
use mathlib.Core.List.{append_assoc, append-nil}
use gateway_poc.Base.{
  ℕ, ◌<◌, ◌≡◌, refl, ap, sym, subst, ◌∙◌, ◌≡⟨◌⟩◌, ◌∎, true, List, [], ◌∷◌, ◌++◌, length,
  length-append, concat, All, All-append, arith,
}
use gateway_poc.Back.Message.{Message}
use gateway_poc.Back.Consumer.{MessageConsumer, take_message, take_messages, moved, consume}

-- Between two calls a chunk is not full.
pub record IsOpen (c : MessageConsumer) : Type 0 where
  pub positive : 0 < c.chunk_size
  pub room : length c.buffer < c.chunk_size

abbrev pub IsChunk : ℕ → List Message → Type 0
IsChunk n job = length job ≡ n

-- What one message or many messages do to the buffer `b` of a consumer.
pub record Taken (c : MessageConsumer) (messages : List Message)
    (r : MessageConsumer × List (List Message)) : Type 0 where
  pub keeps_size : r.0.chunk_size ≡ c.chunk_size
  pub keeps_folder : r.0.output_folder ≡ c.output_folder
  pub is_open : IsOpen r.0
  pub full : All (IsChunk c.chunk_size) r.1
  pub conserved : concat r.1 ++ r.0.buffer ≡ c.buffer ++ messages

take_message-Taken :
    (c : MessageConsumer) (m : Message) → IsOpen c → Taken c (m ∷ []) (take_message c m)
unfolding take_message
take_message-Taken c m v =
    ground (arith, length-append c.buffer (m ∷ []), append-nil (c.buffer ++ (m ∷ [])))

concat-append : (xs ys : List (List Message)) → concat (xs ++ ys) ≡ concat xs ++ concat ys
concat-append [] ys = refl
concat-append (x ∷ xs) ys =
    ap (◌++◌ x) (concat-append xs ys) ∙ sym (append_assoc x (concat xs) (concat ys))

-- One round, and then the others.
Taken-trans :
    (c : MessageConsumer) (m : Message) (ms : List Message)
    (r s : MessageConsumer × List (List Message))
    → Taken c (m ∷ []) r
    → Taken r.0 ms s
    → Taken c (m ∷ ms) (s.0, r.1 ++ s.1)
Taken-trans c m ms r s t u = record {
  keeps_size = u.keeps_size ∙ t.keeps_size;
  keeps_folder = u.keeps_folder ∙ t.keeps_folder;
  is_open = u.is_open;
  full =
      All-append (IsChunk c.chunk_size) r.1 s.1 t.full
        (subst (λ (n : ℕ). All (IsChunk n) s.1) t.keeps_size u.full);
  conserved =
      concat (r.1 ++ s.1) ++ s.0.buffer
      ≡⟨ ap (λ (x : List Message). x ++ s.0.buffer) (concat-append r.1 s.1) ⟩
        (concat r.1 ++ concat s.1) ++ s.0.buffer
      ≡⟨ append_assoc (concat r.1) (concat s.1) s.0.buffer ⟩
        concat r.1 ++ (concat s.1 ++ s.0.buffer)
      ≡⟨ ap (◌++◌ (concat r.1)) u.conserved ⟩ concat r.1 ++ (r.0.buffer ++ ms)
      ≡⟨ sym (append_assoc (concat r.1) r.0.buffer ms) ⟩ (concat r.1 ++ r.0.buffer) ++ ms
      ≡⟨ ap (λ (x : List Message). x ++ ms) t.conserved ⟩ (c.buffer ++ (m ∷ [])) ++ ms
      ≡⟨ append_assoc c.buffer (m ∷ []) ms ⟩ c.buffer ++ (m ∷ ms) ∎;
}

-- Whatever is handed over: each started chunk is exactly full, the buffer that is left is not, the
-- settings stay, and the chunks followed by the buffer are the old buffer followed by the messages.
pub take_messages-Taken :
    (c : MessageConsumer) (ms : List Message) → IsOpen c → Taken c ms (take_messages c ms)
unfolding take_messages
take_messages-Taken c [] v = record {
  keeps_size = refl;
  keeps_folder = refl;
  is_open = v;
  full = tt;
  conserved = sym (append-nil c.buffer);
}
take_messages-Taken c (m ∷ ms) v =
    let t = take_message-Taken c m v in
    Taken-trans c m ms (take_message c m) (take_messages (take_message c m).0 ms) t
      (take_messages-Taken (take_message c m).0 ms t.is_open)

abbrev pub ids : List Message → List ℕ
ids [] = []
ids (m ∷ ms) = m.id ∷ ids ms

pub ids-moved : (ms : List Message) → ids (moved ms) ≡ ids ms
unfolding moved
ids-moved [] = refl
ids-moved (m ∷ ms) = ap (◌∷◌ m.id) (ids-moved ms)

-- A call on a buffer below its chunk says that the messages may be marked consumed, and the list it
-- gives back still has their ids. Each chunk that it starts is exactly full, the buffer is left
-- below its chunk, and the chunks followed by the buffer are the old buffer followed by the
-- messages.
pub consume-Taken :
    (c : MessageConsumer) (ms : List Message)
    → IsOpen c
    → ((consume c ms).result ≡ true)
      × (ids (consume c ms).messages ≡ ids ms)
      × Taken c ms ((consume c ms).consumer, (consume c ms).jobs)
unfolding consume
consume-Taken c ms v = (refl, ids-moved ms, take_messages-Taken c ms v)
