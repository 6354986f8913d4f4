-- ===== src/PoolManager/Safety.antt =====
-- The active connection of the manager of libpoolprotocols/PoolManager.cpp.
use quai_gpu_miner_archive.Prelude.{
  ℕ, zero, suc, ◌+◌, ◌-◌, ◌≤◌, ◌<◌, ◌≡◌, refl, ap, ◌∙◌, ◌≢◌, ◌⊎◌, inl, inr, Bool, true, false,
  Option, none, some, List, [], ◌∷◌, arith, ltb, if◌then◌else◌, Bool-cases, length, get_elem?,
}
use quai_gpu_miner_archive.PoolManager.Connections.{
  remove_connection, get_active_connection, first_match, set_active_connection_string,
  set_active_connection, set_active_connection_common,
}
use quai_gpu_miner_archive.PoolManager.{Uri, Manager, erase_at, Text, not_found, Client}

pub length-erase :
    (uris : List Uri) (i : ℕ) → i < length uris → length (erase_at i uris) + 1 ≡ length uris
length-erase [] i lt = elim lt [ ]
length-erase (uri ∷ uris) zero lt = omega arith
length-erase (uri ∷ uris) (suc i) lt = omega (arith, length-erase uris i (omega arith))

get_elem?-erase_after :
    (uris : List Uri) (i a : ℕ) → a < i → get_elem? (erase_at i uris) a ≡ get_elem? uris a
get_elem?-erase_after [] zero a lt = elim lt [ ]
get_elem?-erase_after [] (suc i) a lt = refl
get_elem?-erase_after (uri ∷ uris) zero a lt = elim lt [ ]
get_elem?-erase_after (uri ∷ uris) (suc i) zero lt = refl
get_elem?-erase_after (uri ∷ uris) (suc i) (suc a) lt = get_elem?-erase_after uris i a (omega arith)

get_elem?-erase_before :
    (uris : List Uri) (i a : ℕ) → i ≤ a → get_elem? (erase_at i uris) a ≡ get_elem? uris (suc a)
get_elem?-erase_before [] zero a le = refl
get_elem?-erase_before [] (suc i) a le = refl
get_elem?-erase_before (uri ∷ uris) zero a le = refl
get_elem?-erase_before (uri ∷ uris) (suc i) zero le = elim le [ ]
get_elem?-erase_before (uri ∷ uris) (suc i) (suc a) le =
    get_elem?-erase_before uris i a (omega arith)

get_elem?-erase :
    (uris : List Uri) (i a : ℕ)
    → i ≢ a
    → get_elem? (erase_at i uris) (if ltb i a then a - 1 else a) ≡ get_elem? uris a
get_elem?-erase uris i zero ne = ground (arith, get_elem?-erase_after uris i zero)
get_elem?-erase uris i (suc a) ne =
    ground (arith, get_elem?-erase_after uris i (suc a), get_elem?-erase_before uris i a)

-- However it ends, `removeConnection` does not change which connection is active.
pub remove_connection-get_active_connection :
    (idx : ℕ) (m : Manager)
    → get_active_connection (remove_connection idx m).1 ≡ get_active_connection m
unfolding remove_connection get_active_connection
remove_connection-get_active_connection idx m =
    ground (arith, get_elem?-erase m.connections idx m.active_connection_idx)

module _ (iequals : Text → Text → Bool) (connstring : Text) where
  -- The index that is found is that of a connection.
  pub first_match-lt :
      (first : ℕ) (uris : List Uri) (idx : ℕ)
      → first_match iequals connstring first uris ≡ some idx
      → (first ≤ idx) × (idx < first + length uris)
  unfolding first_match
  first_match-lt first [] idx e = absurd (cc e)
  first_match-lt first (uri ∷ uris) idx e = elim (Bool-cases (iequals uri.str connstring)) [
    | inl same ↦ ground arith
    | inr other ↦
        let later : first_match iequals connstring (first + 1) uris ≡ some idx = ground arith in
        let (le, lt) = first_match-lt (first + 1) uris idx later in (omega arith, omega arith)
  ]

  pub set_active_connection_string-none :
      (m : Manager)
      → first_match iequals connstring 0 m.connections ≡ none
      → set_active_connection_string iequals connstring m ≡ (some not_found, m)
  unfolding set_active_connection_string
  set_active_connection_string-none m e = ground arith

  pub set_active_connection_string-state :
      (m : Manager) (idx : ℕ)
      → first_match iequals connstring 0 m.connections ≡ some idx
      → (set_active_connection_string iequals connstring m).1
        ≡ (set_active_connection_common idx m).1
  unfolding set_active_connection_string
  set_active_connection_string-state m idx e = ground arith

  -- The connection at the index has the text, and none before it does.
  pub record IsFirst (uris : List Uri) (idx : ℕ) : Type 0 where
    pub uri : Uri
    pub is_there : get_elem? uris idx ≡ some uri
    pub has_text : iequals uri.str connstring ≡ true
    pub first :
        (j : ℕ) (other : Uri)
        → j < idx
        → get_elem? uris j ≡ some other
        → iequals other.str connstring ≡ false

  first_match-IsFirst :
      (start : ℕ) (uris : List Uri) (idx : ℕ)
      → IsFirst uris idx
      → first_match iequals connstring start uris ≡ some (start + idx)
  unfolding first_match
  first_match-IsFirst start [] idx f = absurd (cc f.is_there)
  first_match-IsFirst start (uri ∷ uris) zero f =
      rw
        (
          first_match,
          ap (λ (o : Option Uri). elim o [ none ↦ false | some u ↦ iequals u.str connstring ])
                f.is_there
              ∙ f.has_text,
        )
        (ap some (omega arith))
  first_match-IsFirst start (uri ∷ uris) (suc idx) f =
      rw (first_match, f.first zero uri (omega arith) refl)
        (first_match-IsFirst (start + 1) uris idx (record {
          uri = f.uri;
          is_there = f.is_there;
          has_text = f.has_text;
          first = λ j other lt e. f.first (suc j) other (omega arith) e;
        })
          ∙ ap some (omega arith))

  -- Where a connection has the text, no operation is outstanding and there is a client,
  -- `setActiveConnection` makes the first connection with the text the active one, and then throws
  -- "Not found.".
  pub set_active_connection_string-throws :
      (m : Manager) (idx : ℕ) (client : Client)
      → IsFirst m.connections idx
      → m.async_pending ≡ false
      → m.client ≡ some client
      → ((set_active_connection_string iequals connstring m).0 ≡ some not_found)
        × (get_active_connection (set_active_connection_string iequals connstring m).1
            ≡ get_elem? m.connections idx)
  unfolding set_active_connection_string set_active_connection_common get_active_connection
  set_active_connection_string-throws m idx client first idle c =
      ground (arith, first_match-IsFirst 0 m.connections idx first)

module _ (m : Manager) (idx : ℕ) where
  -- With a client, `setActiveConnection` of an index either makes the connection of that index the
  -- active one, or throws and leaves the state as it was; it throws only if an operation is
  -- outstanding or the index is out of bounds, and does not throw otherwise.
  pub set_active_connection-get_active_connection :
      (client : Client)
      → m.client ≡ some client
      → (((set_active_connection idx m).0 ≡ none)
          × (m.async_pending ≡ false)
          × (idx < length m.connections)
          × (get_active_connection (set_active_connection idx m).1 ≡ get_elem? m.connections idx))
        ⊎ (((set_active_connection idx m).0 ≢ none)
            × ((m.async_pending ≡ true) ⊎ (length m.connections ≤ idx))
            × ((set_active_connection idx m).1 ≡ m))
  unfolding set_active_connection set_active_connection_common get_active_connection
  set_active_connection-get_active_connection client c = ground arith
