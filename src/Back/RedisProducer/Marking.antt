-- ===== src/Back/RedisProducer/Marking.antt =====
-- What a mark that returns has done, and which errors it tries again after.
use gateway_poc.Base.{
  ℕ, ◌≡◌, refl, sym, ap, subst, ◌∙◌, Bool, true, false, Option, none, some, List, if◌then◌else◌,
}
use gateway_poc.Base.Exec.{pure, raise, gets, ◌>>=◌, ◌>>◌, bind-ok}
use gateway_poc.Base.Outcome.{Outcome, ok, throw, ok-injective}
use gateway_poc.Common.Config.{RedisConfig}
use gateway_poc.Hiredis.{Hiredis, Reply, error, Err, redis_ok, err_io, is_ok, text}
use gateway_poc.Back.Message.{Message}
use gateway_poc.Back.Redis.{make_xdel_command}
use gateway_poc.Back.RedisProducer.{
  RedisError, read_failed, State, Action, is_eof, get_connection, existing, check_err, check_reply,
  reconnect_again, delete, delete_again, mark_consumed,
}
use gateway_poc.Back.RedisProducer.Fetching.{check_err-ok}

abbrev pub is_error : Option Reply → Bool
is_error (some (error shown)) = true
is_error reply = false

module _ (lib : Hiredis) (config : RedisConfig) (chunk_size : ℕ) where
  open lib use {err}

  check_reply-ok :
      (o : Option Reply) (s : State lib) (u : Unit {0})
      → (check_reply lib config chunk_size read_failed o s).0 ≡ ok u
      → (is_error o ≡ false) × ((check_reply lib config chunk_size read_failed o s).1 ≡ s)
  unfolding check_reply
  check_reply-ok none s u h = (refl, refl)
  check_reply-ok (some (error shown)) s u h = cc
  check_reply-ok (some reply) s u h = (refl, refl)

  -- The checks at the end of a mark change nothing, and where they pass there is no error.
  pub finish-ok :
      (c : ℕ) (o : Option Reply) (s : State lib) (u : Unit {0})
      → ((check_err lib config chunk_size read_failed c
            >> check_reply lib config chunk_size read_failed o)
          s).0
        ≡ ok u
      → (err s.world c ≡ redis_ok)
        × (is_error o ≡ false)
        × (((check_err lib config chunk_size read_failed c
                >> check_reply lib config chunk_size read_failed o)
              s).1
            ≡ s)
  finish-ok c o s u h =
      let (v, checked, step) =
        bind-ok (check_err lib config chunk_size read_failed c)
          (λ _. check_reply lib config chunk_size read_failed o) s h in
      let (healthy, same) = check_err-ok lib config chunk_size read_failed c s v checked in
      let step' = step ∙ ap (check_reply lib config chunk_size read_failed o) same in
      let (fine, kept) =
        check_reply-ok o s u
          (sym (ap (λ (r : Outcome RedisError (Unit {0}) × State lib). r.0) step') ∙ h) in
      (healthy, fine, ap (λ (r : Outcome RedisError (Unit {0}) × State lib). r.1) step' ∙ kept)

module _ (lib : Hiredis) (config : RedisConfig) (chunk_size : ℕ) (messages : List Message) where
  open lib use {World, command, err, errstr}

  -- The reply of a deletion that was the last thing to change the world.
  abbrev pub Sent : ℕ → Option Reply → World → Type 0
  Sent c o w = (before : World) × (command c (text (make_xdel_command messages)) before ≡ (o, w))

  pub record Deleted (t : State lib) : Type 0 where
    pub connection : ℕ
    pub reply : Option Reply
    pub sent : Sent connection reply t.world
    pub healthy : err t.world connection ≡ redis_ok
    pub no_error : is_error reply ≡ false

  finish-Deleted :
      (c : ℕ) (o : Option Reply) (s : State lib) (u : Unit {0})
      → Sent c o s.world
      → ((check_err lib config chunk_size read_failed c
            >> check_reply lib config chunk_size read_failed o)
          s).0
        ≡ ok u
      → Deleted
          ((check_err lib config chunk_size read_failed c
              >> check_reply lib config chunk_size read_failed o)
            s).1
  finish-Deleted c o s u f h =
      let (healthy, fine, same) = finish-ok lib config chunk_size c o s u h in
      subst Deleted (sym same)
        (record { connection = c; reply = o; sent = f; healthy = healthy; no_error = fine })

  delete-Sent :
      (c : ℕ) (o : Option Reply) (s : State lib)
      → (delete lib config chunk_size c messages s).0 ≡ ok o
      → Sent c o (delete lib config chunk_size c messages s).1.world
  unfolding delete
  delete-Sent c o s h = (
    s.world,
    ap (λ (x : Option Reply). (x, (command c (text (make_xdel_command messages)) s.world).1))
        (ok-injective h),
  )

  delete_again-Sent :
      (c : ℕ) (o : Option Reply) (s : State lib)
      → (delete_again lib config chunk_size c messages s).0 ≡ ok o
      → Sent c o (delete_again lib config chunk_size c messages s).1.world
  unfolding delete_again
  delete_again-Sent c o s h =
      let (u, again, step) =
        bind-ok (reconnect_again lib config chunk_size)
          (λ _. delete lib config chunk_size c messages) s h in
      subst (λ (r : Outcome RedisError (Option Reply) × State lib). r.0 ≡ ok o → Sent c o r.1.world)
        (sym step) (delete-Sent c o _) h

  -- The rest of a mark, behind its first command.
  abbrev rest_of_mark : ℕ → Option Reply → Bool → Action lib (Unit {0})
  rest_of_mark c o lost =
      (if lost then delete_again lib config chunk_size c messages else pure o) >>= λ reply.
      check_err lib config chunk_size read_failed c
      >> check_reply lib config chunk_size read_failed reply

  rest-Deleted :
      (c : ℕ) (o : Option Reply) (lost : Bool) (s : State lib) (u : Unit {0})
      → Sent c o s.world
      → (rest_of_mark c o lost s).0 ≡ ok u
      → Deleted (rest_of_mark c o lost s).1
  rest-Deleted c o false s u f h = finish-Deleted c o s u f h
  rest-Deleted c o true s u f h =
      let (o', again, step) =
        bind-ok (delete_again lib config chunk_size c messages)
          (λ reply.
            check_err lib config chunk_size read_failed c
            >> check_reply lib config chunk_size read_failed reply)
          s h in
      subst (λ (r : Outcome RedisError (Unit {0}) × State lib). r.0 ≡ ok u → Deleted r.1) (sym step)
        (finish-Deleted c o' _ u (delete_again-Sent c o' s again)) h

  sent-Deleted :
      (c : ℕ) (s : State lib) (u : Unit {0})
      → ((delete lib config chunk_size c messages >>= λ o.
            gets (λ t. err t.world c) >>= λ e. rest_of_mark c o (is_eof e))
          s).0
        ≡ ok u
      → Deleted
          ((delete lib config chunk_size c messages >>= λ o.
              gets (λ t. err t.world c) >>= λ e. rest_of_mark c o (is_eof e))
            s).1
  unfolding delete
  sent-Deleted c s u h = rest-Deleted c _ _ _ u (s.world, refl) h

  -- A mark returns only after the command that names the messages was the last one, its reply no
  -- error, and the connection in order after it.
  pub mark_consumed-Deleted :
      (s : State lib)
      → (mark_consumed lib config chunk_size messages s).0 ≡ ok tt
      → Deleted (mark_consumed lib config chunk_size messages s).1
  unfolding mark_consumed
  mark_consumed-Deleted s h =
      let (c, found, step) = bind-ok (get_connection lib config chunk_size) _ s h in
      subst (λ (r : Outcome RedisError (Unit {0}) × State lib). r.0 ≡ ok tt → Deleted r.1)
        (sym step) (sent-Deleted c _ tt) h

  -- What a mark does behind its first command, and behind its connection.
  abbrev judged : ℕ → Option Reply → Action lib (Unit {0})
  judged c o = gets (λ t. err t.world c) >>= λ e. rest_of_mark c o (is_eof e)

  abbrev marked : ℕ → Action lib (Unit {0})
  marked c = delete lib config chunk_size c messages >>= judged c

  given_up :
      (s : State lib) (c : ℕ) (o : Option Reply)
      → err s.world c ≡ err_io
      → judged c o s ≡ (throw (read_failed (errstr s.world c)), s)
  unfolding check_err
  given_up s c o io =
      ap (λ (e : Err). rest_of_mark c o (is_eof e) s) io
      ∙ ap
          (λ (e : Err).
            ((if is_ok e then pure tt else raise (read_failed (errstr s.world c)))
                >> check_reply lib config chunk_size read_failed o)
              s)
          io

  -- After an input or output error a mark gives up at once, where a fetch would connect again.
  pub mark_consumed_io :
      (s : State lib) (c : ℕ) (o : Option Reply) (w : World)
      → s.connection ≡ some c
      → command c (text (make_xdel_command messages)) s.world ≡ (o, w)
      → err w c ≡ err_io
      → mark_consumed lib config chunk_size messages s
        ≡ (throw (read_failed (errstr w c)), record s { world = w })
  unfolding mark_consumed delete get_connection existing check_err
  mark_consumed_io s c o w own sent io =
      ap (λ (x : Option ℕ). (existing lib config chunk_size x >>= marked) s) own
      ∙ ap (λ (r : Option Reply × World). judged c r.0 (record s { world = r.1 })) sent
      ∙ given_up (record s { world = w }) c o io
