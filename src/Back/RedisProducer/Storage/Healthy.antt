-- ===== src/Back/RedisProducer/Storage/Healthy.antt =====
-- The producer of Redis over a server that answers every command.
use gateway_poc.Base.{
  ℕ, no_left, ◌<◌, ◌≡◌, refl, sym, ap, ◌∙◌, false, Option, none, some, List, [], ◌∷◌, map,
  if◌then◌else◌,
}
use gateway_poc.Base.Bytes.{Bytes}
use gateway_poc.Base.Exec.{after, ◌>>=◌, ◌>>◌, pure}
use gateway_poc.Base.Outcome.{Outcome, ok, ok-injective}
use gateway_poc.Common.Config.{RedisConfig}
use gateway_poc.Hiredis.{Hiredis, Reply, str, array, error, other, Err, auth, xrange, text}
use gateway_poc.Back.Message.{Message}
use gateway_poc.Back.RunLoop.Progress.{Answers}
use gateway_poc.Back.Redis.{messages_stream, make_xdel_command}
use gateway_poc.Back.Redis.Stream.{StreamEntry, to_message, messages_from_reply-stream}
use gateway_poc.Back.RedisProducer.{
  RedisError, authentication_failed, read_failed, State, is_lost, is_eof, check_err, check_reply,
  authenticate, connected, existing, get_connection, fetch, fetch_again, read_reply, get_next,
  delete, delete_again, mark_consumed, redis_producer,
}
use gateway_poc.Back.RedisProducer.Marking.{is_error}
use gateway_poc.Back.RedisProducer.Server.{IsStream, IsHealthy}
use gateway_poc.Back.RedisProducer.Storage.Fetch.{first-InRange}
use gateway_poc.Back.RedisProducer.Storage.{streamed, redis_producer-IsStorage}

module _ (lib : Hiredis) (stream : lib.World → List StreamEntry)
    (Gone : List StreamEntry → lib.World → Type 0) (law : IsStream lib stream Gone)
    (healthy : IsHealthy lib stream) (config : RedisConfig) (chunk_size : ℕ) where
  open lib use {World, connect, command, err}

  check_err-fine :
      (complaint : Bytes → RedisError) (c : ℕ) (s : State lib)
      → check_err lib config chunk_size complaint c s ≡ (ok tt, s)
  unfolding check_err
  check_err-fine complaint c s = rw (healthy.in_order s.world c) refl

  check_reply-fine :
      (complaint : Bytes → RedisError) (o : Option Reply) (s : State lib)
      → is_error o ≡ false
      → check_reply lib config chunk_size complaint o s ≡ (ok tt, s)
  unfolding check_reply
  check_reply-fine complaint none s e = refl
  check_reply-fine complaint (some (error shown)) s e = cc
  check_reply-fine complaint (some (str x)) s e = refl
  check_reply-fine complaint (some (array es)) s e = refl
  check_reply-fine complaint (some (other n)) s e = refl

  abbrev sent_to : (World → Option Reply × World) → State lib → State lib
  sent_to f s = record s { world = (f s.world).1 }

  authenticate-fine :
      (c : ℕ) (s : State lib)
      → (t : State lib) × (authenticate lib config chunk_size c s ≡ (ok tt, t))
  unfolding authenticate
  authenticate-fine c s =
      let asked = command c (auth config.user config.password) in
      let t = sent_to asked s in
      (
        t,
        after (check_err lib config chunk_size authentication_failed c)
              (λ _. check_reply lib config chunk_size authentication_failed (asked s.world).0) t
              (check_err-fine authentication_failed c t)
            ∙ check_reply-fine authentication_failed (asked s.world).0 t
                (healthy.welcomes c config.user config.password s.world),
      )

  connected-fine :
      (c : ℕ) (s : State lib)
      → (t : State lib) × (connected lib config chunk_size (some c) s ≡ (ok c, t))
  unfolding connected
  connected-fine c s =
      let s' : State lib = record s { connection = some c } in
      let (t, signed) = authenticate-fine c s' in
      (
        t,
        rw (healthy.in_order s.world c)
            (after (authenticate lib config chunk_size c) (λ _. pure c) s' signed),
      )

  existing-fine :
      (o : Option ℕ) (s : State lib)
      → (c : ℕ) × (t : State lib) × (existing lib config chunk_size o s ≡ (ok c, t))
  unfolding existing
  existing-fine (some c) s = (c, s, refl)
  existing-fine none s =
      let (c, made) = healthy.connects config.host config.port s.world in
      let s' : State lib = record s { world = (connect config.host config.port s.world).1 } in
      let (t, done) = connected-fine c s' in
      (c, t, ap (λ (o : Option ℕ). connected lib config chunk_size o s') made ∙ done)

  get_connection-fine :
      (s : State lib)
      → (c : ℕ) × (t : State lib) × (get_connection lib config chunk_size s ≡ (ok c, t))
  unfolding get_connection
  get_connection-fine s = existing-fine s.connection s

  finish-fine :
      (c : ℕ) (o : Option Reply) (s : State lib)
      → is_error o ≡ false
      → (check_err lib config chunk_size read_failed c
            >> check_reply lib config chunk_size read_failed o)
          s
        ≡ (ok tt, s)
  finish-fine c o s e =
      after (check_err lib config chunk_size read_failed c)
        (λ _. check_reply lib config chunk_size read_failed o) s (check_err-fine read_failed c s)
      ∙ check_reply-fine read_failed o s e

  mark_consumed-fine :
      (given : List Message) (s : State lib)
      → (mark_consumed lib config chunk_size given s).0 ≡ ok tt
  unfolding mark_consumed delete
  mark_consumed-fine given s =
      let (c, t, got) = get_connection-fine s in
      let asked = command c (text (make_xdel_command given)) in
      let u = sent_to asked t in
      ap (λ (r : Outcome RedisError (Unit {0}) × State lib). r.0)
        (after (get_connection lib config chunk_size) _ s got
          ∙ ap
              (λ (e : Err).
                ((if is_eof e
                      then delete_again lib config chunk_size c given
                      else pure (asked t.world).0)
                    >>= λ reply.
                        check_err lib config chunk_size read_failed c
                        >> check_reply lib config chunk_size read_failed reply)
                  u)
              (healthy.in_order u.world c)
          ∙ finish-fine c (asked t.world).0 u (healthy.removes c (make_xdel_command given) t.world))

  -- A fetch gives the first messages of the stream, and none only where there is none.
  get_next-fine :
      (s : State lib)
      → 0 < chunk_size
      → (es : List StreamEntry) × ((get_next lib config chunk_size s).0 ≡ ok (map to_message es))
        × (es ≡ [] → stream (get_next lib config chunk_size s).1.world ≡ [])
  unfolding get_next fetch read_reply
  get_next-fine s positive =
      let (c, t, got) = get_connection-fine s in
      let asked = command c (xrange messages_stream chunk_size) in
      let u = sent_to asked t in
      let (es, rest, described, head, empty) = healthy.describes c chunk_size t.world positive in
      let fit = first-InRange lib stream Gone law config chunk_size es rest u.world head in
      let all : get_next lib config chunk_size s ≡ (ok (map to_message es), u) =
        after (get_connection lib config chunk_size) _ s got
        ∙ ap
            (λ (e : Err).
              ((if is_lost e then fetch_again lib config chunk_size c else pure (asked t.world).0)
                  >>= λ reply.
                      check_err lib config chunk_size read_failed c
                      >> read_reply lib config chunk_size reply)
                u)
            (healthy.in_order u.world c)
        ∙ after (check_err lib config chunk_size read_failed c)
            (λ _. read_reply lib config chunk_size (asked t.world).0) u
            (check_err-fine read_failed c u)
        ∙ rw (described, messages_from_reply-stream es fit) refl in
      (
        es,
        ap (λ (r : Outcome RedisError (List Message) × State lib). r.0) all,
        λ none.
            ap (λ (r : Outcome RedisError (List Message) × State lib). stream r.1.world) all
            ∙ empty none,
      )

  no_messages : (es : List StreamEntry) → map to_message es ≡ [] → es ≡ []
  no_messages [] e = refl
  no_messages (x ∷ es) e = cc

  -- Over a lawful server that answers every command, and with a positive chunk, the producer
  -- answers as the loop needs it to get through its stream.
  pub redis_producer-Answers :
      0 < chunk_size → Answers (redis_producer lib config chunk_size) (streamed lib stream)
  redis_producer-Answers positive = record {
    gives =
        λ s. let (es, fetched, empty) = get_next-fine s positive in (map to_message es, fetched);
    gives_some = λ s none.
        let (es, fetched, empty) = get_next-fine s positive in
        let law' = redis_producer-IsStorage lib stream Gone law config chunk_size in
        let (rest, more, head, grown) = law'.fetched s [] none in
        no_left (streamed lib stream s) more (
          sym grown
          ∙ ap (λ (x : List StreamEntry). map to_message x)
              (empty (no_messages es (ok-injective (sym fetched ∙ none)))));
    marks = λ s m ms given rest same head. mark_consumed-fine given s;
  }
