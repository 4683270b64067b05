-- ===== src/Back/PostgresProducer/Query.antt =====
-- The text that deletes messages.
use gateway_poc.Base.{ℕ, ◌≡◌, refl, ap, ◌∙◌, List, [], ◌∷◌, ◌++◌}
use gateway_poc.Base.Bytes.{Bytes, codes}
use gateway_poc.Base.Decimal.{to_string}
use gateway_poc.Base.Outcome.{ok}
use gateway_poc.Back.Message.{Message}
use gateway_poc.Back.Consumer.Chunks.{ids}
use gateway_poc.Back.PostgresProducer.{id_list, delete_query}

-- Numbers that commas separate.
unfoldable pub listing : List ℕ → Bytes
listing [] = []
listing (i ∷ []) = to_string i
listing (i ∷ j ∷ is) = to_string i ++ (b',' ∷ listing (j ∷ is))

-- The statement that deletes the rows with the ids, from its first byte to its last.
abbrev pub deletion : List ℕ → Bytes
deletion is = codes "DELETE FROM messages WHERE id IN (" ++ (listing is ++ (b')' ∷ []))

id_list-listing : (m : Message) (ms : List Message) → id_list m ms ≡ listing (ids (m ∷ ms))
unfolding id_list listing
id_list-listing m [] = refl
id_list-listing m (k ∷ ms) = ap (λ (s : Bytes). to_string m.id ++ (b',' ∷ s)) (id_list-listing k ms)

-- The text of a mark is the whole statement for the ids of its messages, in their order.
pub delete_query-deletion :
    (m : Message) (ms : List Message) → delete_query (m ∷ ms) ≡ ok (deletion (ids (m ∷ ms)))
unfolding delete_query
delete_query-deletion m ms =
    ap (λ (s : Bytes). ok (codes "DELETE FROM messages WHERE id IN (" ++ (s ++ (b')' ∷ []))))
      (id_list-listing m ms)

-- The same for messages that are known by their ids.
pub given-deletion :
    (given : List Message) (m : Message) (ms : List Message)
    → ids given ≡ ids (m ∷ ms)
    → delete_query given ≡ ok (deletion (ids (m ∷ ms)))
given-deletion [] m ms e = cc
given-deletion (g ∷ given) m ms e =
    delete_query-deletion g given ∙ ap (λ (is : List ℕ). ok (deletion is)) e
