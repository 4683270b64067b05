-- ===== src/Back/RedisProducer/Storage/Fetch.antt =====
-- A fetch of the producer of Redis over a server with a stream.
use gateway_poc.Base.{
  ℕ, ◌≡◌, ◌≢◌, refl, sym, ap, subst, ◌∙◌, ◌⊎◌, inl, inr, Bool, true, false, Option, none, some,
  List, [], ◌∷◌, ◌++◌, map, All, if◌then◌else◌,
}
use gateway_poc.Base.Bytes.{Bytes}
use gateway_poc.Base.Exec.{pure, raise, continue, ◌>>=◌, ◌>>◌, bind-ok}
use gateway_poc.Base.Outcome.{Outcome, ok, throw, fault, ok-injective}
use gateway_poc.Common.Config.{RedisConfig}
use gateway_poc.Hiredis.{Hiredis, Reply, array, error, is_ok}
use gateway_poc.Back.Message.{Message}
use gateway_poc.Back.Storage.Calls.{Grows-trans}
use gateway_poc.Back.Redis.Stream.{
  StreamEntry, InRange, entries_reply, to_message, messages_from_reply-stream,
}
use gateway_poc.Back.RedisProducer.{
  RedisError, read_failed, no_details, State, Action, is_lost, check_err, get_connection,
  reconnect_again, read_reply, fetch, fetch_again, get_next,
}
use gateway_poc.Back.RedisProducer.Server.{Safe, IsStream}
use gateway_poc.Back.RedisProducer.Storage.Calls.{
  entries, Good, bind-Good, Safe-refl, check_err-Good, get_connection-Good, reconnect_again-Good,
  fetch-Good,
}

module _ (lib : Hiredis) (stream : lib.World → List StreamEntry)
    (Gone : List StreamEntry → lib.World → Type 0) (law : IsStream lib stream Gone)
    (config : RedisConfig) (chunk_size : ℕ) where
  open lib use {World, connect, reconnect, command, free, err, errstr}

  InRange-left : (es rest : List StreamEntry) → All InRange (es ++ rest) → All InRange es
  InRange-left [] rest h = tt
  InRange-left (e ∷ es) rest h = (h.0, InRange-left es rest h.1)

  pub first-InRange :
      (es rest : List StreamEntry) (w : World) → stream w ≡ es ++ rest → All InRange es
  first-InRange es rest w head =
      InRange-left es rest (subst (λ (x : List StreamEntry). All InRange x) head (law.in_range w))

  -- What a fetch comes to that began in `s`: what it gives are the first entries of the stream.
  pub record Gives (s : State lib) (r : Outcome RedisError (List Message)) (t : State lib)
      : Type 0 where
    pub safe : Safe lib stream Gone s.world t.world
    pub defined : r ≢ fault
    pub first :
        (ms : List Message)
        → r ≡ ok ms
        → (es : List StreamEntry) × (rest : List StreamEntry) × (ms ≡ map to_message es)
          × (stream t.world ≡ es ++ rest)

  bind-Gives :
      {A : Type 0} (m : Action lib A) (f : A → Action lib (List Message)) (s : State lib)
      → Good lib stream Gone law config chunk_size m
      → ((a : A) → (m s).0 ≡ ok a → Gives (m s).1 (f a (m s).1).0 (f a (m s).1).1)
      → Gives s ((m >>= f) s).0 ((m >>= f) s).1
  bind-Gives {A} m f s g h = go (m s).0 (g.safe s) (g.defined s) h
    where
      go :
          (r : Outcome RedisError A)
          → Safe lib stream Gone s.world (m s).1.world
          → r ≢ fault
          → ((a : A) → r ≡ ok a → Gives (m s).1 (f a (m s).1).0 (f a (m s).1).1)
          → Gives s (continue r f (m s).1).0 (continue r f (m s).1).1
      go (ok a) x n k =
          let later = k a refl in
          record {
            safe = (
              Grows-trans (entries lib stream Gone law config chunk_size) s (m s).1 (f a (m s).1).1
                  x.0 later.safe.0,
              λ es gone. later.safe.1 es (x.1 es gone),
            );
            defined = later.defined;
            first = later.first;
          }
      go (throw e) x n k = record { safe = x; defined = λ e. cc; first = λ ms e. cc }
      go fault x n k = absurd (n refl)

  -- The replies of `XRANGE`, in a state behind it.
  abbrev Shape : Option Reply → World → Type 0
  Shape o w =
      (o ≡ none)
      ⊎ ((shown : Bytes) × (o ≡ some (error shown)))
      ⊎ ((es : List StreamEntry) × (rest : List StreamEntry) × (o ≡ some (array (entries_reply es)))
          × (stream w ≡ es ++ rest))

  raised-Gives : (s : State lib) (e : RedisError) → Gives s (throw e) s
  raised-Gives s e = record {
    safe = Safe-refl lib stream Gone law config chunk_size s;
    defined = λ h. cc;
    first = λ ms h. cc;
  }

  read_reply-Gives :
      (o : Option Reply) (s : State lib)
      → Shape o s.world
      → Gives s (read_reply lib config chunk_size o s).0 (read_reply lib config chunk_size o s).1
  unfolding read_reply
  read_reply-Gives o s (inl e) = rw e (raised-Gives s no_details)
  read_reply-Gives o s (inr (inl (shown, e))) = rw e (raised-Gives s (read_failed shown))
  read_reply-Gives o s (inr (inr (es, rest, e, head))) =
      rw (e, messages_from_reply-stream es (first-InRange es rest s.world head))
        (record {
          safe = Safe-refl lib stream Gone law config chunk_size s;
          defined = λ h. cc;
          first = λ ms h. (es, rest, sym (ok-injective h), head);
        })

  pub check_err-same :
      (complaint : Bytes → RedisError) (c : ℕ) (s : State lib)
      → (check_err lib config chunk_size complaint c s).1 ≡ s
  unfolding check_err
  check_err-same complaint c s =
      elim (is_ok (err s.world c))
        as (λ b.
          ((if◌then◌else◌ {A = Action lib (Unit {0})} b (pure tt)
              (raise (complaint (errstr s.world c))))
            s).1
          ≡ s) [ true ↦ refl | false ↦ refl ]

  checked-Gives :
      (c : ℕ) (o : Option Reply) (s : State lib)
      → Shape o s.world
      → Gives s
          ((check_err lib config chunk_size read_failed c >> read_reply lib config chunk_size o)
            s).0
          ((check_err lib config chunk_size read_failed c >> read_reply lib config chunk_size o)
            s).1
  checked-Gives c o s shape =
      bind-Gives (check_err lib config chunk_size read_failed c)
        (λ _. read_reply lib config chunk_size o) s
        (check_err-Good lib stream Gone law config chunk_size read_failed c)
        (λ _ _.
          let same = check_err-same read_failed c s in
          subst
            (λ (t : State lib).
              Gives t (read_reply lib config chunk_size o t).0
                (read_reply lib config chunk_size o t).1)
            (sym same) (read_reply-Gives o s shape))

  fetch-Shape :
      (c : ℕ) (s : State lib) (o : Option Reply)
      → (fetch lib config chunk_size c s).0 ≡ ok o
      → Shape o (fetch lib config chunk_size c s).1.world
  unfolding fetch
  fetch-Shape c s o e =
      subst (λ (x : Option Reply). Shape x (fetch lib config chunk_size c s).1.world)
        (ok-injective e) (law.xrange_reply c chunk_size s.world)

  fetch_again-Good :
      (c : ℕ) → Good lib stream Gone law config chunk_size (fetch_again lib config chunk_size c)
  unfolding fetch_again
  fetch_again-Good c =
      bind-Good lib stream Gone law config chunk_size
        (reconnect_again-Good lib stream Gone law config chunk_size)
        (λ _. fetch-Good lib stream Gone law config chunk_size c)

  fetch_again-Shape :
      (c : ℕ) (s : State lib) (o : Option Reply)
      → (fetch_again lib config chunk_size c s).0 ≡ ok o
      → Shape o (fetch_again lib config chunk_size c s).1.world
  unfolding fetch_again
  fetch_again-Shape c s o e =
      let (_, _, step) =
        bind-ok (reconnect_again lib config chunk_size) (λ _. fetch lib config chunk_size c) s e in
      let t = (reconnect_again lib config chunk_size s).1 in
      subst (λ (r : Outcome RedisError (Option Reply) × State lib). Shape o r.1.world) (sym step)
        (fetch-Shape c t o
          (ap (λ (r : Outcome RedisError (Option Reply) × State lib). r.0) (sym step) ∙ e))

  -- What follows the first fetch.
  retried-Gives :
      (c : ℕ) (o : Option Reply) (b : Bool) (s : State lib)
      → Shape o s.world
      → let m = (if b then fetch_again lib config chunk_size c else pure o) >>= λ reply.
          check_err lib config chunk_size read_failed c >> read_reply lib config chunk_size reply in
        Gives s (m s).0 (m s).1
  retried-Gives c o true s shape =
      bind-Gives (fetch_again lib config chunk_size c)
        (λ reply.
          check_err lib config chunk_size read_failed c >> read_reply lib config chunk_size reply)
        s (fetch_again-Good c) (λ reply e. checked-Gives c reply _ (fetch_again-Shape c s reply e))
  retried-Gives c o false s shape = checked-Gives c o s shape

  pub get_next-Gives :
      (s : State lib)
      → Gives s (get_next lib config chunk_size s).0 (get_next lib config chunk_size s).1
  unfolding get_next
  get_next-Gives s =
      bind-Gives (get_connection lib config chunk_size) _ s
        (get_connection-Good lib stream Gone law config chunk_size)
        (λ c _.
          let t = (get_connection lib config chunk_size s).1 in
          bind-Gives (fetch lib config chunk_size c) _ t
            (fetch-Good lib stream Gone law config chunk_size c)
            (λ o e.
              let u = (fetch lib config chunk_size c t).1 in
              retried-Gives c o (is_lost (err u.world c)) u (fetch-Shape c t o e)))
