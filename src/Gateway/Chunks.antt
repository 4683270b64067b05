-- ===== src/Gateway/Chunks.antt =====
-- A body in the chunks of the back, and in the files that its threads write.
use mathlib.Core.Logic.{∥∥₁_elim}
use mathlib.Core.List.Sublist
use mathlib.Core.List.{
  exists_of_mem-map, append_of_mem, Sublist, Mem, mem-append_right, mem-cons_self, append_assoc,
  Perm,
}
use gateway_poc.Base.{
  ◌≡◌, refl, sym, ap, subst, ◌∙◌, inl, inr, Bool, true, some, List, [], ◌∷◌, ◌++◌, concat,
  cut-cases, All, arith,
}
use gateway_poc.Base.Bytes.{Bytes}
use gateway_poc.Back.Message.{Message}
use gateway_poc.Gateway.Requests.{payloads}
use gateway_poc.Back.Consumer.{Files, file_content, run_jobs}
use gateway_poc.Back.Consumer.Disk.{Filled, Increasing, run_jobs-saved}
use gateway_poc.Back.Consumer.FileNames.{Fits}
use gateway_poc.Back.Consumer.Saves.{read_file, path_of}

-- A chunk in which a message carries the body.
pub record HasBody (body : Bytes) (cs : List (List Message)) : Type 0 where
  pub message : Message
  pub carries : message.payload ≡ body
  pub earlier : List (List Message)
  pub others : List (List Message)
  pub before : List Message
  pub after : List Message
  pub split : cs ≡ earlier ++ ((before ++ (message ∷ after)) ∷ others)

module _ (m : Message) where
  one_more :
      (c : List Message) (cs : List (List Message))
      → HasBody m.payload cs
      → HasBody m.payload (c ∷ cs)
  one_more c cs h = record {
    message = h.message;
    carries = h.carries;
    earlier = c ∷ h.earlier;
    others = h.others;
    before = h.before;
    after = h.after;
    split = ap (◌∷◌ c) h.split;
  }

  -- A message that stands in the chunks together stands in one of them.
  pub concat-HasBody :
      (cs : List (List Message)) (before after : List Message)
      → concat cs ≡ before ++ (m ∷ after)
      → HasBody m.payload cs
  concat-HasBody [] [] after e = cc
  concat-HasBody [] (b ∷ before) after e = cc
  concat-HasBody (c ∷ cs) before after e = elim (cut-cases c (concat cs) before (m ∷ after) e) [
    | inl (mid, all, rest) ↦ go mid all rest (concat-HasBody cs [] after)
    | inr (mid, part, rest) ↦ one_more c cs (concat-HasBody cs mid after rest)
  ]
    where
      go :
          (mid : List Message)
          → c ≡ before ++ mid
          → m ∷ after ≡ mid ++ concat cs
          → (concat cs ≡ m ∷ after → HasBody m.payload cs)
          → HasBody m.payload (c ∷ cs)
      go [] all rest later = one_more c cs (later (sym rest))
      go (k ∷ mid) all rest later =
          let same : k ≡ m = ground arith in
          record {
            message = k;
            carries = ap (λ (x : Message). x.payload) same;
            earlier = [];
            others = cs;
            before = before;
            after = mid;
            split = ap (λ (x : List Message). x ∷ cs) all;
          }

file_content-append :
    (before after : List Message)
    → file_content (before ++ after) ≡ file_content before ++ file_content after
unfolding file_content
file_content-append [] after = refl
file_content-append (m ∷ before) after =
    ap (◌++◌ (m.payload ++ (b'\n' ∷ []))) (file_content-append before after)
    ∙ sym (append_assoc (m.payload ++ (b'\n' ∷ [])) (file_content before) (file_content after))

-- A file of the folder that has the body in it, with a line feed behind it.
pub record OnDisk (body folder : Bytes) (files : Files) : Type 0 where
  pub chunk : List Message
  pub before : Bytes
  pub after : Bytes
  pub found :
      read_file (path_of folder chunk) files ≡ some (before ++ ((body ++ (b'\n' ∷ [])) ++ after))

pub saved-OnDisk :
    (body folder : Bytes) (opens : Bytes → Bool) (cs order : List (List Message)) (files : Files)
    → HasBody body cs
    → Increasing (concat cs)
    → All Filled cs
    → All (λ c. All Fits c) cs
    → Perm cs order
    → ((c : List Message) → Mem c cs → opens (path_of folder c) ≡ true)
    → OnDisk body folder (run_jobs opens folder order files)
unfolding file_content
saved-OnDisk body folder opens cs order files h rising filled fit shuffled writable =
    let chunk = h.before ++ (h.message ∷ h.after) in
    let there : Mem chunk cs =
      subst (λ (x : List (List Message)). Mem chunk x) (sym h.split)
        (mem-append_right h.earlier (mem-cons_self {a = chunk})) in
    record {
      chunk = chunk;
      before = file_content h.before;
      after = file_content h.after;
      found =
          run_jobs-saved opens folder cs order files rising filled fit shuffled writable chunk there
          ∙ ap (λ (x : Bytes). some x) (file_content-append h.before (h.message ∷ h.after))
          ∙ ap
              (λ (x : Bytes).
                some (file_content h.before ++ ((x ++ (b'\n' ∷ [])) ++ file_content h.after)))
              h.carries;
    }

-- A body among those of the messages in the chunks stands in one of them.
payload-HasBody :
    (body : Bytes) (cs : List (List Message))
    → Mem body (payloads (concat cs))
    → ∥ HasBody body cs ∥₁
payload-HasBody body cs m = ∥∥₁_elim (exists_of_mem-map m) squash₁ λ (message, there, carries).
    ∥∥₁_elim (append_of_mem there) squash₁ λ (before, after, split).
      ∣ subst (λ (b : Bytes). HasBody b cs) carries
        (concat-HasBody message cs before after split) ∣₁

pub bodies-OnDisk :
    (bodies : List Bytes) (body folder : Bytes) (opens : Bytes → Bool)
    (cs order : List (List Message)) (files : Files)
    → Sublist bodies (payloads (concat cs))
    → Mem body bodies
    → Increasing (concat cs)
    → All Filled cs
    → All (λ c. All Fits c) cs
    → Perm cs order
    → ((c : List Message) → Mem c cs → opens (path_of folder c) ≡ true)
    → ∥ OnDisk body folder (run_jobs opens folder order files) ∥₁
bodies-OnDisk bodies body folder opens cs order files inside m rising filled fit shuffled writable =
    ∥∥₁_elim (payload-HasBody body cs (Sublist.subset inside body m)) squash₁
      λ h. ∣ saved-OnDisk body folder opens cs order files h rising filled fit shuffled writable ∣₁
