-- ===== src/Back/RedisProducer/Fetching.antt =====
-- Where the messages that the producer gives come from, and what a mark that returns has done.
use gateway_poc.Base.{
  ℕ, ◌≡◌, refl, sym, ap, subst, ◌∙◌, Bool, true, false, Option, none, some, List, if◌then◌else◌,
  Bool-cases, inl, inr, arith,
}
use gateway_poc.Base.Bytes.{Bytes}
use gateway_poc.Base.Exec.{pure, raise, gets, ◌>>=◌, ◌>>◌, bind-ok}
use gateway_poc.Base.Outcome.{Outcome, ok, throw, fault, ok-injective}
use gateway_poc.Common.Config.{RedisConfig}
use gateway_poc.Hiredis.{Hiredis, Reply, error, Err, redis_ok, is_ok, xrange}
use gateway_poc.Back.Message.{Message}
use gateway_poc.Back.Redis.{ReplyError, messages_stream, messages_from_reply}
use gateway_poc.Back.RedisProducer.{
  RedisError, read_failed, State, Action, from_reply, is_lost, get_connection, check_err,
  reconnect_again, read_reply, fetch, fetch_again, get_next,
}

from_reply-ok : {A : Type 0} (r : Outcome ReplyError A) (a : A) → from_reply r ≡ ok a → r ≡ ok a
from_reply-ok (ok b) a e = ground arith
from_reply-ok (throw x) a e = cc
from_reply-ok fault a e = cc

is_ok-eq : (e : Err) → is_ok e ≡ true → e ≡ redis_ok
is_ok-eq e h = ground arith

module _ (lib : Hiredis) (config : RedisConfig) (chunk_size : ℕ) where
  open lib use {World, command, err}

  pub check_err-ok :
      (complaint : Bytes → RedisError) (c : ℕ) (s : State lib) (u : Unit {0})
      → (check_err lib config chunk_size complaint c s).0 ≡ ok u
      → (err s.world c ≡ redis_ok) × ((check_err lib config chunk_size complaint c s).1 ≡ s)
  unfolding check_err
  check_err-ok complaint c s u h = elim (Bool-cases (is_ok (err s.world c))) [
    | inl fine ↦ (
      is_ok-eq (err s.world c) fine,
      ap
          (λ (b : Bool).
            (if◌then◌else◌ {A = Action lib (Unit {0})} b (pure tt)
              (raise (complaint (lib.errstr s.world c))) s).1)
          fine,
    )
    | inr bad ↦ cc (rw (bad, if◌then◌else◌) at h)
  ]

  read_reply-ok :
      (o : Option Reply) (s : State lib) (ms : List Message)
      → (read_reply lib config chunk_size o s).0 ≡ ok ms
      → ((reply : Reply) × (o ≡ some reply) × (messages_from_reply reply ≡ ok ms))
        × ((read_reply lib config chunk_size o s).1 ≡ s)
  unfolding read_reply
  read_reply-ok none s ms h = cc
  read_reply-ok (some (error shown)) s ms h = cc
  read_reply-ok (some reply) s ms h = ((reply, refl, from_reply-ok _ ms h), refl)

  -- The reply of a fetch that was the last thing to change the world.
  abbrev pub Fetched : ℕ → Option Reply → World → Type 0
  Fetched c o w = (before : World) × (command c (xrange messages_stream chunk_size) before ≡ (o, w))

  -- What a fetch that returns `ms` in the state `t` has done.
  pub record Served (ms : List Message) (t : State lib) : Type 0 where
    pub connection : ℕ
    pub reply : Reply
    pub fetched : Fetched connection (some reply) t.world
    pub healthy : err t.world connection ≡ redis_ok
    pub messages : messages_from_reply reply ≡ ok ms

  finish-Served :
      (c : ℕ) (o : Option Reply) (s : State lib) (ms : List Message)
      → Fetched c o s.world
      → ((check_err lib config chunk_size read_failed c >> read_reply lib config chunk_size o) s).0
        ≡ ok ms
      → Served ms
          ((check_err lib config chunk_size read_failed c >> read_reply lib config chunk_size o)
            s).1
  finish-Served c o s ms f h =
      let (u, checked, step) =
        bind-ok (check_err lib config chunk_size read_failed c)
          (λ _. read_reply lib config chunk_size o) s h in
      let (healthy, same) = check_err-ok read_failed c s u checked in
      let step' = step ∙ ap (read_reply lib config chunk_size o) same in
      let ((reply, there, messages), kept) =
        read_reply-ok o s ms
          (sym (ap (λ (r : Outcome RedisError (List Message) × State lib). r.0) step') ∙ h) in
      subst (Served ms)
        (sym (ap (λ (r : Outcome RedisError (List Message) × State lib). r.1) step' ∙ kept))
        (record {
          connection = c;
          reply = reply;
          fetched = (f.0, f.1 ∙ ap (λ (x : Option Reply). (x, s.world)) there);
          healthy = healthy;
          messages = messages;
        })

  fetch-Fetched :
      (c : ℕ) (o : Option Reply) (s : State lib)
      → (fetch lib config chunk_size c s).0 ≡ ok o
      → Fetched c o (fetch lib config chunk_size c s).1.world
  unfolding fetch
  fetch-Fetched c o s h = (
    s.world,
    ap (λ (x : Option Reply). (x, (command c (xrange messages_stream chunk_size) s.world).1))
        (ok-injective h),
  )

  fetch_again-Fetched :
      (c : ℕ) (o : Option Reply) (s : State lib)
      → (fetch_again lib config chunk_size c s).0 ≡ ok o
      → Fetched c o (fetch_again lib config chunk_size c s).1.world
  unfolding fetch_again
  fetch_again-Fetched c o s h =
      let (u, again, step) =
        bind-ok (reconnect_again lib config chunk_size) (λ _. fetch lib config chunk_size c) s h in
      subst
        (λ (r : Outcome RedisError (Option Reply) × State lib). r.0 ≡ ok o → Fetched c o r.1.world)
        (sym step) (fetch-Fetched c o _) h

  -- The rest of a fetch, behind its first command.
  abbrev rest_of_fetch : ℕ → Option Reply → Bool → Action lib (List Message)
  rest_of_fetch c o lost =
      (if lost then fetch_again lib config chunk_size c else pure o) >>= λ reply.
      check_err lib config chunk_size read_failed c >> read_reply lib config chunk_size reply

  rest-Served :
      (c : ℕ) (o : Option Reply) (lost : Bool) (s : State lib) (ms : List Message)
      → Fetched c o s.world
      → (rest_of_fetch c o lost s).0 ≡ ok ms
      → Served ms (rest_of_fetch c o lost s).1
  rest-Served c o false s ms f h = finish-Served c o s ms f h
  rest-Served c o true s ms f h =
      let (o', again, step) =
        bind-ok (fetch_again lib config chunk_size c)
          (λ reply.
            check_err lib config chunk_size read_failed c >> read_reply lib config chunk_size reply)
          s h in
      subst (λ (r : Outcome RedisError (List Message) × State lib). r.0 ≡ ok ms → Served ms r.1)
        (sym step) (finish-Served c o' _ ms (fetch_again-Fetched c o' s again)) h

  fetched-Served :
      (c : ℕ) (s : State lib) (ms : List Message)
      → ((fetch lib config chunk_size c >>= λ o.
            gets (λ t. err t.world c) >>= λ e. rest_of_fetch c o (is_lost e))
          s).0
        ≡ ok ms
      → Served ms
          ((fetch lib config chunk_size c >>= λ o.
              gets (λ t. err t.world c) >>= λ e. rest_of_fetch c o (is_lost e))
            s).1
  unfolding fetch
  fetched-Served c s ms h = rest-Served c _ _ _ ms (s.world, refl) h

  -- Messages that the producer gives are those of a reply to its `XRANGE`, the last command that it
  -- sent, on a connection that is in order after it.
  pub get_next-Served :
      (s : State lib) (ms : List Message)
      → (get_next lib config chunk_size s).0 ≡ ok ms
      → Served ms (get_next lib config chunk_size s).1
  unfolding get_next
  get_next-Served s ms h =
      let (c, found, step) = bind-ok (get_connection lib config chunk_size) _ s h in
      subst (λ (r : Outcome RedisError (List Message) × State lib). r.0 ≡ ok ms → Served ms r.1)
        (sym step) (fetched-Served c _ ms) h
