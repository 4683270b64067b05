-- ===== src/Common/ResolveHost.antt =====
-- common/utils/resolve_host.cpp. `getaddrinfo` and `inet_ntoa` are operations of the system.
use gateway_poc.Base.{◌≡◌, ◌≢◌, refl, ◌⊎◌, inl, inr, Option, none, some, List, [], ◌∷◌}
use gateway_poc.Base.Bytes.{Bytes}

pub record Resolver : Type 1 where
  pub SockAddr : Type 0
  -- The list of results, with `ai_addr` or a null pointer in each; none if the call fails.
  pub getaddrinfo : Bytes → Option (List (Option SockAddr))
  -- `inet_ntoa` of the address read as a `sockaddr_in`, whatever its family is.
  pub inet_ntoa : SockAddr → Bytes

module _ (r : Resolver) where
  open r use {SockAddr, getaddrinfo, inet_ntoa}

  -- The loop over the results, with `ip` empty.
  first_address : List (Option SockAddr) → Bytes
  first_address [] = []
  first_address (none ∷ results) = first_address results
  first_address (some address ∷ results) = inet_ntoa address

  resolved : Option (List (Option SockAddr)) → Bytes
  resolved none = []
  resolved (some results) = first_address results

  unfoldable pub resolve_host : Bytes → Bytes
  unfolding resolved first_address
  resolve_host hostname = resolved (getaddrinfo hostname)

  abbrev NoAddress : List (Option SockAddr) → Type 0
  NoAddress [] = Unit {0}
  NoAddress (none ∷ results) = NoAddress results
  NoAddress (some address ∷ results) = ⊥

  first_address-empty :
      ((address : SockAddr) → inet_ntoa address ≢ [])
      → (results : List (Option SockAddr)) → first_address results ≡ []
      → NoAddress results
  unfolding first_address
  first_address-empty text [] e = tt
  first_address-empty text (none ∷ results) e = first_address-empty text results e
  first_address-empty text (some address ∷ results) e = absurd (text address e)

  resolved-empty :
      ((address : SockAddr) → inet_ntoa address ≢ [])
      → (o : Option (List (Option SockAddr))) → resolved o ≡ []
      → (o ≡ none) ⊎ ((results : List (Option SockAddr)) × (o ≡ some results) × NoAddress results)
  unfolding resolved
  resolved-empty text none e = inl refl
  resolved-empty text (some results) e = inr (results, refl, first_address-empty text results e)

  -- Where an address has a text, the result is empty, which its callers take for a failure, only if
  -- the look-up failed or gave no address at all.
  pub resolve_host-empty :
      ((address : SockAddr) → inet_ntoa address ≢ [])
      → (hostname : Bytes) → resolve_host hostname ≡ []
      → (getaddrinfo hostname ≡ none)
        ⊎ ((results : List (Option SockAddr)) × (getaddrinfo hostname ≡ some results)
            × NoAddress results)
  unfolding resolve_host
  resolve_host-empty text hostname e = resolved-empty text (getaddrinfo hostname) e
