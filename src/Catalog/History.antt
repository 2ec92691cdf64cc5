-- ===== src/Catalog/History.antt =====
-- The catalog over any sequence of calls and of reports of the watcher.
use remmina_krunner.Base.{
  ℕ, Text, List, [], ◌∷◌, Option, none, some, if◌then◌else◌, Bool, true, false, ◌==◌, All, All-map,
  Some, ◌≡◌, refl, if_split, inl, inr, ◌⊎◌,
}
use remmina_krunner.Instance.{RemminaInstance}
use remmina_krunner.Repository.{RepositoryLoadResult}
use remmina_krunner.Catalog.{
  ProfileCatalog, initial, Answer, RoundAnswers, mark_dirty, call_back, end_session, reset,
  clear_snapshot_and_watches, records_of,
}
use remmina_krunner.Catalog.Calls.{IsConsistent, records_of-Leaves}

module _ (is_absolute_path : Text → Bool) (clean_path : Text → Text) where
  -- A call of the owner, or one of a callback that the watcher has.
  pub data Call : Type 0 where
    asks : RemminaInstance → Answer RepositoryLoadResult → RoundAnswers → RoundAnswers → Call
    calls_back : ℕ → Call
    marks ends resets : Call

  abbrev pub step : Call → ProfileCatalog → ProfileCatalog
  step (asks i load first second) c =
      (records_of is_absolute_path clean_path i load first second c).1
  step (calls_back lifetime) c = call_back lifetime c
  step marks c = mark_dirty c
  step ends c = end_session c
  step resets c = reset c

  pub serve : List Call → ProfileCatalog → ProfileCatalog
  serve [] c = c
  serve (call ∷ calls) c = serve calls (step call c)

  -- The rounds whose answers a call of `records` for the installation with the id may use.
  abbrev pub AsksFor : Call → Text → RoundAnswers → Type 0
  AsksFor (asks i load first second) id round = (i.id ≡ id) × ((first ≡ round) ⊎ (second ≡ round))
  AsksFor _ id round = ⊥

  abbrev pub Asked : List Call → Text → RoundAnswers → Type 0
  Asked calls id round = Some (λ call. AsksFor call id round) calls

module _ (is_absolute_path : Text → Bool) (clean_path : Text → Text)
    (from : Text → RoundAnswers → Type 0) where
  -- The flags of the session and of changes do not matter.
  flags-IsConsistent :
      (c : ProfileCatalog) (active changed : Bool)
      → IsConsistent is_absolute_path clean_path from c
      → IsConsistent is_absolute_path clean_path from
          (record c { session_active = active; dirty = changed })
  flags-IsConsistent c active changed h = record {
    unique = h.unique;
    selected = h.selected;
    watched = λ k.
        let w = h.watched k in
        record {
          round = w.round;
          snapshot = w.snapshot;
          asked = w.asked;
          placed = w.placed;
          quiet = w.quiet;
          loaded_behind = w.loaded_behind;
          covers = w.covers;
          armed = record {
            lifetime = w.armed.lifetime;
            current = w.armed.current;
            paths = w.armed.paths;
          };
          directory = w.directory;
          fingerprint = w.fingerprint;
          profiles = w.profiles;
        };
  }

  call_back-IsConsistent :
      (lifetime : ℕ) (c : ProfileCatalog)
      → IsConsistent is_absolute_path clean_path from c
      → IsConsistent is_absolute_path clean_path from (call_back lifetime c)
  unfolding call_back mark_dirty
  call_back-IsConsistent lifetime c h = go c.callback_lifetime
    where
      go :
          (o : Option ℕ)
          → IsConsistent is_absolute_path clean_path from (elim o [
            | none ↦ c
            | some current ↦ if current == lifetime then record c { dirty = true } else c
          ])
      go none = h
      go (some current) =
          if_split (IsConsistent is_absolute_path clean_path from) (current == lifetime) _ _
            (λ _. flags-IsConsistent c c.session_active true h) (λ _. h)

  abbrev Admits : Call is_absolute_path clean_path → Type 0
  Admits call =
      (id : Text) (round : RoundAnswers)
      → AsksFor is_absolute_path clean_path call id round
      → from id round

  step-IsConsistent :
      (call : Call is_absolute_path clean_path) (c : ProfileCatalog)
      → Admits call
      → IsConsistent is_absolute_path clean_path from c
      → IsConsistent is_absolute_path clean_path from (step is_absolute_path clean_path call c)
  step-IsConsistent (asks i load first second) c f h =
      (records_of-Leaves is_absolute_path clean_path from i load first second c
        (f i.id first (refl, inl refl)) (f i.id second (refl, inr refl)) h).consistent
  step-IsConsistent (calls_back lifetime) c f h = call_back-IsConsistent lifetime c h
  step-IsConsistent marks c f h = unfold mark_dirty in flags-IsConsistent c c.session_active true h
  step-IsConsistent ends c f h = unfold end_session in flags-IsConsistent c false c.dirty h
  step-IsConsistent resets c f h =
      unfold reset clear_snapshot_and_watches in
      record { unique = tt; selected = λ k. cc; watched = λ k. cc }

  serve_from-IsConsistent :
      (calls : List (Call is_absolute_path clean_path)) (c : ProfileCatalog)
      → All Admits calls
      → IsConsistent is_absolute_path clean_path from c
      → IsConsistent is_absolute_path clean_path from (serve is_absolute_path clean_path calls c)
  unfolding serve
  serve_from-IsConsistent [] c f h = h
  serve_from-IsConsistent (call ∷ calls) c f h =
      serve_from-IsConsistent calls (step is_absolute_path clean_path call c) f.1
        (step-IsConsistent call c f.0 h)

module _ (is_absolute_path : Text → Bool) (clean_path : Text → Text) where
  Asked-Admits :
      (calls : List (Call is_absolute_path clean_path))
      → All (Admits is_absolute_path clean_path (Asked is_absolute_path clean_path calls)) calls
  Asked-Admits [] = tt
  Asked-Admits (call ∷ calls) = (
    λ id round a. inl a,
    All-map (λ other h id round a. inr (h id round a)) calls (Asked-Admits calls),
  )

  -- After any calls of a new catalog, with any answers, exceptions and reports of changes, current
  -- or late, no two of its profiles share an id; and where there is a clean snapshot, an
  -- installation is selected, and one of the calls was for this installation and had a round in which
  -- watches were put in place, the snapshot was loaded behind that, and no change was reported during
  -- either; the watches are those for this very snapshot, its directory, the parents of the links
  -- that lead to it and its files among them, and their callback is live.
  pub serve-IsConsistent :
      (calls : List (Call is_absolute_path clean_path))
      → IsConsistent is_absolute_path clean_path
          (Asked is_absolute_path clean_path calls)
          (serve is_absolute_path clean_path calls initial)
  unfolding initial
  serve-IsConsistent calls =
      serve_from-IsConsistent is_absolute_path clean_path (Asked is_absolute_path clean_path calls)
        calls initial (Asked-Admits calls)
        (record { unique = tt; selected = λ k. cc; watched = λ k. cc })
