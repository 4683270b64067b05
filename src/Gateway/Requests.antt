-- ===== src/Gateway/Requests.antt =====
-- Requests that a front answers one after the other, and what its storage holds then.
use mathlib.Core.List.Sublist
use mathlib.Core.List.{
  append_assoc, append-nil, map-append, Mem, mem-map_of_mem, mem-append_right, mem-cons_self,
  nil-sublist, singleton-sublist, sublist-append_left, sublist-append_right, Sublist,
}
use gateway_poc.Base.{
  ℕ, ◌≡◌, refl, sym, ap, subst, ◌∙◌, inl, inr, Bool-cases, List, [], ◌∷◌, ◌++◌, map,
}
use gateway_poc.Base.Bytes.{Bytes, str_eq, str_eq_iff}
use gateway_poc.Front.Handler.{
  CheckResult, WriterError, HandlerResult, Writer, handle, handle_refused,
}
use gateway_poc.Front.Session.{
  Verb, post, other_verb, Status, accepted, bad_request, method_not_allowed, internal_server_error,
  service_unavailable, Request, instrument_path,
}
use gateway_poc.Front.Session.Answers.{handle_request_elsewhere}
use gateway_poc.Front.Stored.{handled-state, requested-state, accepted-IsStored}
use gateway_poc.Front.Requests.{noted, answered_by, serve_all, accepted_bodies}
use gateway_poc.Front.Sessions.{Serving, Reach, opening, Reach-Serialized}
use gateway_poc.Back.Message.{Message}
use gateway_poc.Back.Storage.Calls.{Grows}

abbrev pub payload_of : Message → Bytes
payload_of m = m.payload

abbrev pub payloads : List Message → List Bytes
payloads ms = map payload_of ms

module _ {W : Type 0} (view : W → List Message) where
  -- A message that carries the body was stored behind those that were there.
  pub record Appended (body : Bytes) (w w' : W) : Type 0 where
    pub message : Message
    pub before : List Message
    pub after : List Message
    pub carries : message.payload ≡ body
    pub split : view w' ≡ view w ++ (before ++ (message ∷ after))

  -- A writer that removes nothing, and stores what it reports as written.
  pub record Writes (write : ℕ → Writer W) : Type 0 where
    pub keeps : (thread : ℕ) (body : Bytes) (w : W) → Grows view w (write thread body w).1
    pub adds :
        (thread : ℕ) (body : Bytes) (w : W)
        → (write thread body w).0.error ≡ WriterError.ok
        → Appended body w (write thread body w).1

module _ {W : Type 0} (check : Bytes → CheckResult) (write : ℕ → Writer W) (view : W → List Message)
    (law : Writes view write) where
  unchanged : (w w' : W) → w' ≡ w → Grows view w w'
  unchanged w w' e = ([], ap view e ∙ sym (append-nil (view w)))

  checked-Grows :
      (thread : ℕ) (q : Request) (w : W) → Grows view w (handle check (write thread) q.body w).1
  checked-Grows thread q w = elim (Bool-cases (check q.body).ok) [
    | inl fine ↦
        let (more, grown) = law.keeps thread q.body w in
        (more, ap view (handled-state check (write thread) q w fine) ∙ grown)
    | inr refused ↦
        unchanged w _ (
          ap (λ (r : HandlerResult × W). r.1)
            (handle_refused check (write thread) q.body w refused))
  ]

  -- Whatever a request is and comes to, it removes nothing.
  answered-Grows :
      (thread : ℕ) (q : Request) (w : W) (v : Verb)
      → q.method ≡ v
      → Grows view w (answered_by check write thread q w).1
  answered-Grows thread q w (other_verb name) e =
      unchanged w _ (handle_request_elsewhere (handle check (write thread)) q w (inl (λ h. cc))).0
  answered-Grows thread q w post e = elim (Bool-cases (str_eq q.target instrument_path)) [
    | inl hit ↦
        let (more, grown) = checked-Grows thread q w in
        let routed =
          requested-state check (write thread) q w e
            ((str_eq_iff q.target instrument_path).0 hit) in
        (more, ap view routed ∙ grown)
    | inr miss ↦
        unchanged w _
          (handle_request_elsewhere (handle check (write thread)) q w
            (inr (λ h. cc (miss, (str_eq_iff q.target instrument_path).1 h)))).0
  ]

  -- What a request leaves behind the messages that were there, with its body if it was accepted.
  record Leaves (body : Bytes) (status : Status) (w w' : W) : Type 0 where
    news : List Message
    grown : view w' ≡ view w ++ news
    has :
        (rest : List Bytes) (others : List Message)
        → Sublist rest (payloads others)
        → Sublist (noted status body rest) (payloads (news ++ others))

  behind :
      (news others : List Message) (rest : List Bytes)
      → Sublist rest (payloads others)
      → Sublist rest (payloads (news ++ others))
  behind news others rest h =
      subst (Sublist rest) (sym (map-append payload_of news others))
        (Sublist.append (nil-sublist (payloads news)) h)

  with_body :
      (m : Message) (before after others : List Message) (rest : List Bytes)
      → Sublist rest (payloads others)
      → Sublist (m.payload ∷ rest) (payloads ((before ++ (m ∷ after)) ++ others))
  with_body m before after others rest h =
      let there : Mem m.payload (payloads (before ++ (m ∷ after))) =
        mem-map_of_mem payload_of (mem-append_right before mem-cons_self) in
      subst (Sublist (m.payload ∷ rest))
        (sym (map-append payload_of (before ++ (m ∷ after)) others))
        (Sublist.append (singleton-sublist.1 there) h)

  accepted-Leaves :
      (thread : ℕ) (q : Request) (w : W)
      → (answered_by check write thread q w).0.status ≡ accepted
      → Leaves q.body accepted w (answered_by check write thread q w).1
  accepted-Leaves thread q w e =
      let stored = accepted-IsStored check (write thread) q w e in
      let a = law.adds thread q.body w stored.written in
      record {
        news = a.before ++ (a.message ∷ a.after);
        grown = ap view stored.state ∙ a.split;
        has = λ rest others h.
            subst
              (λ (b : Bytes).
                Sublist (b ∷ rest) (payloads ((a.before ++ (a.message ∷ a.after)) ++ others)))
              a.carries (with_body a.message a.before a.after others rest h);
      }

  other-Leaves :
      (body : Bytes) (status : Status) (w w' : W)
      → Grows view w w'
      → ((rest : List Bytes) → noted status body rest ≡ rest)
      → Leaves body status w w'
  other-Leaves body status w w' (more, grown) same = record {
    news = more;
    grown = grown;
    has = λ rest others h.
        subst (λ (x : List Bytes). Sublist x (payloads (more ++ others))) (sym (same rest))
          (behind more others rest h);
  }

  answered-Leaves :
      (thread : ℕ) (q : Request) (w : W) (status : Status)
      → (answered_by check write thread q w).0.status ≡ status
      → Leaves q.body status w (answered_by check write thread q w).1
  answered-Leaves thread q w accepted e = accepted-Leaves thread q w e
  answered-Leaves thread q w bad_request e =
      other-Leaves _ _ _ _ (answered-Grows thread q w _ refl) (λ rest. refl)
  answered-Leaves thread q w method_not_allowed e =
      other-Leaves _ _ _ _ (answered-Grows thread q w _ refl) (λ rest. refl)
  answered-Leaves thread q w internal_server_error e =
      other-Leaves _ _ _ _ (answered-Grows thread q w _ refl) (λ rest. refl)
  answered-Leaves thread q w service_unavailable e =
      other-Leaves _ _ _ _ (answered-Grows thread q w _ refl) (λ rest. refl)

  -- However many requests a front has answered: what was stored stays first, and among what is
  -- behind it stand the bodies of the accepted ones, in their order and each as often as it was
  -- accepted.
  pub serve_all-Sublist :
      (qs : List (ℕ × Request)) (w : W)
      → (news : List Message) × (view (serve_all check write qs w) ≡ view w ++ news)
        × Sublist (accepted_bodies check write qs w) (payloads news)
  unfolding serve_all accepted_bodies
  serve_all-Sublist [] w = ([], sym (append-nil (view w)), nil-sublist [])
  serve_all-Sublist ((thread, q) ∷ qs) w =
      let first = answered-Leaves thread q w _ refl in
      let w' = (answered_by check write thread q w).1 in
      let (news, grown, inside) = serve_all-Sublist qs w' in
      (
        first.news ++ news,
        grown
            ∙ ap (λ (x : List Message). x ++ news) first.grown
            ∙ append_assoc (view w) first.news news,
        first.has (accepted_bodies check write qs w') news inside,
      )

  -- The same of any number of sessions, however their handlers are interleaved.
  pub Reach-Sublist :
      (w : W) {s : Serving check write}
      → Reach check write (opening check write w) s
      → (news : List Message) × (view s.world ≡ view w ++ news)
        × Sublist (accepted_bodies check write s.served w) (payloads news)
  Reach-Sublist w {s} reached =
      let (news, grown, inside) = serve_all-Sublist s.served w in
      (news, ap view (Reach-Serialized check write w reached).handled ∙ grown, inside)

-- What is taken of a list that has grown holds what stood in it before.
pub Sublist-left :
    (bodies : List Bytes) (ms before news later : List Message)
    → ms ≡ (before ++ news) ++ later
    → Sublist bodies (payloads news)
    → Sublist bodies (payloads ms)
Sublist-left bodies ms before news later split h =
    subst (Sublist bodies)
      (sym (
          map-append payload_of (before ++ news) later
          ∙ ap (λ (x : List Bytes). x ++ payloads later) (map-append payload_of before news))
        ∙ ap payloads (sym split))
      (Sublist.trans h (
        Sublist.trans (sublist-append_right (payloads before) (payloads news))
          (sublist-append_left (payloads before ++ payloads news) (payloads later))))
