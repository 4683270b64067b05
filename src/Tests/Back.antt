-- ===== src/Tests/Back.antt =====
-- The files of the consumer's chunks.
use gateway_poc.Base.{ℕ, ◌<◌, ◌≡◌, refl, Bool, true, [], ◌∷◌, arith}
use gateway_poc.Base.Bytes.{Bytes, codes, str_eq}
use gateway_poc.Base.Decimal.{to_string, pad}
use gateway_poc.Back.Message.{Message}
use gateway_poc.Back.Consumer.{
  MessageConsumer, make_consumer, file_name, full_path, file_content, write_file, save_messages,
  close_consumer,
}
use gateway_poc.Back.Consumer.FileNames.{read_name, file_name_understates}

abbrev message : ℕ → Message
message n = record { id = n; payload = codes "data" }

abbrev everywhere : Bytes → Bool
everywhere path = true

file_name_understates_example : (read_name (file_name (message 8 ∷ message 3 ∷ []))).1 < 8
file_name_understates_example =
    file_name_understates (message 8) (message 3) [] (omega arith, (omega arith, tt)) (omega arith)

-- A buffer that is left is saved when the consumer ends; the name of its file has two ids of 19
-- digits.
abbrev left : MessageConsumer
left = record (make_consumer (record { chunk_size = 10; output_folder = codes "out/" })) {
  buffer = message 12 ∷ message 34 ∷ [];
}

close_consumer-left :
    close_consumer everywhere left []
    ≡ (codes "out/0000000000000000012-0000000000000000034", codes "data\ndata\n") ∷ []
unfolding make_consumer close_consumer save_messages str_eq full_path file_name file_content
    write_file to_string pad
close_consumer-left = refl
