-- ===== src/Back/Consumer.antt =====
-- gwback/src/consumer/consumer.cpp: messages are collected in a buffer, and each full chunk is
-- saved to a file by a detached thread. A call returns the chunks that it started threads for, in
-- order; `run_jobs` is what the threads do, in an order that the scheduler chooses.
pub mod Chunks
pub mod Disk
pub mod FileNames
pub mod Saves
use gateway_poc.Base.{
  ℕ, ◌+◌, ◌-◌, ◌^◌, ◌≡◌, refl, Bool, true, false, List, [], ◌∷◌, ◌++◌, min, max, length, leb, ◌==◌,
  if◌then◌else◌,
}
use gateway_poc.Base.Bytes.{Bytes, str_eq}
use gateway_poc.Base.Decimal.{to_string, pad}
use gateway_poc.Back.Config.{ConsumerConfig}
use gateway_poc.Back.Message.{Message}

pub record MessageConsumer : Type 0 where
  pub chunk_size : ℕ
  pub output_folder : Bytes
  pub buffer : List Message

unfoldable pub make_consumer : ConsumerConfig → MessageConsumer
make_consumer config = record {
  chunk_size = config.chunk_size;
  output_folder = config.output_folder;
  buffer = [];
}

-- The buffer is moved into the thread, and is empty from then on.
unfoldable pub flush_buffer : MessageConsumer → MessageConsumer × List (List Message)
flush_buffer c = (record c { buffer = [] }, c.buffer ∷ [])

-- A round of the loop: `emplace_back`, and a flush when the chunk is full.
unfoldable pub take_message : MessageConsumer → Message → MessageConsumer × List (List Message)
unfolding flush_buffer
take_message c m =
    let c' : MessageConsumer = record c { buffer = c.buffer ++ (m ∷ []) } in
    if leb c.chunk_size (length c'.buffer) then flush_buffer c' else (c', [])

unfoldable pub take_messages :
    MessageConsumer → List Message → MessageConsumer × List (List Message)
unfolding take_message
take_messages c [] = (c, [])
take_messages c (m ∷ messages) =
    let (c', jobs) = take_message c m in
    let (c'', more) = take_messages c' messages in (c'', jobs ++ more)

-- A message that was moved from keeps its id and has no data.
unfoldable pub moved : List Message → List Message
moved [] = []
moved (m ∷ messages) = record m { payload = [] } ∷ moved messages

pub record Consumed : Type 0 where
  pub result : Bool
  pub consumer : MessageConsumer
  pub messages : List Message
  pub jobs : List (List Message)

-- `operator()`: its argument is a reference, and is changed.
unfoldable pub consume : MessageConsumer → List Message → Consumed
unfolding take_messages moved
consume c messages =
    let (c', jobs) = take_messages c messages in
    record { result = true; consumer = c'; messages = moved messages; jobs = jobs }

-- The loop over the ids, with the `minId` just computed in the second line.
unfoldable pub id_range : ℕ → ℕ → List Message → ℕ × ℕ
id_range min_id max_id [] = (min_id, max_id)
id_range min_id max_id (m ∷ messages) =
    id_range (min min_id m.id) (max (min min_id m.id) m.id) messages

unfoldable pub file_name : List Message → Bytes
unfolding id_range
file_name messages =
    let (min_id, max_id) = id_range (2 ^ 64 - 1) 0 messages in
    pad 19 (to_string min_id) ++ (b'-' ∷ pad 19 (to_string max_id))

-- `std::filesystem::path(folder) / name` for a relative name.
unfoldable pub full_path : Bytes → Bytes → Bytes
full_path [] name = name
full_path (c ∷ []) name = if c == b'/' then c ∷ name else c ∷ b'/' ∷ name
full_path (c ∷ d ∷ folder) name = c ∷ full_path (d ∷ folder) name

unfoldable pub file_content : List Message → Bytes
file_content [] = []
file_content (m ∷ messages) = (m.payload ++ (b'\n' ∷ [])) ++ file_content messages

-- The files by their paths. Opening with `trunc` replaces what a file held.
abbrev pub Files : Type 0
Files = List (Bytes × Bytes)

unfoldable pub write_file : Bytes → Bytes → Files → Files
write_file path content [] = (path, content) ∷ []
write_file path content ((p, old) ∷ files) =
    if str_eq p path then (path, content) ∷ files else (p, old) ∷ write_file path content files

-- `opens` says whether the file system lets a path be opened for writing.
unfoldable pub save_messages : (Bytes → Bool) → Bytes → List Message → Files → Files
unfolding file_name full_path file_content write_file
save_messages opens folder [] files = files
save_messages opens folder (m ∷ messages) files =
    let path = full_path folder (file_name (m ∷ messages)) in
    if opens path then write_file path (file_content (m ∷ messages)) files else files

unfoldable pub run_jobs : (Bytes → Bool) → Bytes → List (List Message) → Files → Files
unfolding save_messages
run_jobs opens folder [] files = files
run_jobs opens folder (job ∷ jobs) files =
    run_jobs opens folder jobs (save_messages opens folder job files)

-- `~MessageConsumer`
unfoldable pub close_consumer : (Bytes → Bool) → MessageConsumer → Files → Files
unfolding save_messages
close_consumer opens c files = save_messages opens c.output_folder c.buffer files
