-- ===== src/InterfaceUp/Waiting.antt =====
-- When the wait for a link ends, and how.
use mathlib.Core.List.{Memᴰ}
use sdk_vpp.Prelude.{
  ℕ, ◌≡◌, ◌⊎◌, inl, inr, ap, sym, ◌∙◌, refl, Bool, true, false, Option, none, some, List, [], ◌∷◌,
  arith, if◌then◌else◌,
}
use sdk_vpp.Vpp.{Vpp, Error, Call, SwInterfaceDetails, sw_interface_dump_at, sw_interface_set_flags}
use sdk_vpp.Exec.{State, M, Outcome, ok, err, side, pure}
use sdk_vpp.Metadata.Up
use sdk_vpp.InterfaceUp.{
  Event, interface_event, other_message, Watcher, Inited, is_up_of, wait_events, watched,
  watch_event, first_details, wait_for_up_link_up, up_on, up,
}

is_up_of_lem : (i : ℕ) (e : Event) → is_up_of i e ≡ true → interface_event i true ≡ e
unfolding is_up_of
is_up_of_lem i (interface_event j b) h = ground arith
is_up_of_lem i other_message h = cc

is_up_of_self : (i : ℕ) → is_up_of i (interface_event i true) ≡ true
unfolding is_up_of
is_up_of_self i = ground arith

-- `interface_event i true` is not the first event.
not_in :
    {i : ℕ} (e : Event) (events : List Event)
    → is_up_of i e ≡ false
    → (Memᴰ (interface_event i true) events → ⊥)
    → Memᴰ (interface_event i true) (e ∷ events)
    → ⊥
not_in {i} e events h absent (Memᴰ.head same) =
    cc (sym (is_up_of_self i) ∙ ap (is_up_of i) same ∙ h)
not_in {i} e events h absent (Memᴰ.tail member) = absent member

module _ (v : Vpp) (w : Watcher) (i : ℕ) (done : Error) (s : State Inited) where
  wait_cons :
      (e : Event) (events : List Event) (b : Bool) (rest : M Inited Error (Unit {0}))
      → is_up_of i e ≡ b
      → (Memᴰ (interface_event i true) events × (rest s ≡ (ok tt, s)))
        ⊎ ((Memᴰ (interface_event i true) events → ⊥)
            × (rest s ≡ (err (Error.wrap "provided context is done" done), s)))
      → (Memᴰ (interface_event i true) (e ∷ events)
          × ((if b then pure tt else rest) s ≡ (ok tt, s)))
        ⊎ ((Memᴰ (interface_event i true) (e ∷ events) → ⊥)
            × ((if b then pure tt else rest) s
                ≡ (err (Error.wrap "provided context is done" done), s)))
  wait_cons e events true rest h later = inl (Memᴰ.head (is_up_of_lem i e h), refl)
  wait_cons e events false rest h (inl (member, returns)) = inl (Memᴰ.tail member, returns)
  wait_cons e events false rest h (inr (absent, fails)) = inr (not_in e events h absent, fails)

  -- Either an event of the interface's link arrives and the loop returns, or none does and it fails.
  wait_events_lem :
      (events : List Event)
      → (Memᴰ (interface_event i true) events × (wait_events v w i done events s ≡ (ok tt, s)))
        ⊎ ((Memᴰ (interface_event i true) events → ⊥)
            × (wait_events v w i done events s
                ≡ (err (Error.wrap "provided context is done" done), s)))
  unfolding wait_events
  wait_events_lem [] = inr ((λ h. elim h [ ]), refl)
  wait_events_lem (e ∷ events) =
      wait_cons e events (is_up_of i e) (wait_events v w i done events) refl
        (wait_events_lem events)

-- On whether the link was listed as up
waits :
    {A : Type 0} {t : State Inited} {result : Outcome Error (Unit {0}) × State Inited} {e : Error}
    (b : Bool) (events : M Inited Error (Unit {0}))
    → result ≡ (if b then pure tt else events) t
    → (A × (events t ≡ (ok tt, t))) ⊎ ((A → ⊥) × (events t ≡ (err e, t)))
    → (((b ≡ true) ⊎ A) × (result ≡ (ok tt, t))) ⊎ ((b ≡ false) × (A → ⊥) × (result ≡ (err e, t)))
waits true events run later = inl (inl refl, run)
waits false events run (inl (arrived, returns)) = inl (inr arrived, run ∙ returns)
waits false events run (inr (absent, fails)) = inr (refl, absent, run ∙ fails)

module _ (v : Vpp) (w : Watcher) (load : Bool → State Inited → Option ℕ)
    (accepts : (h : List Call) (c : Call) → v.fails h c ≡ none) where
  wait_runs :
      (i : ℕ) (d : SwInterfaceDetails) (ds : List SwInterfaceDetails) (s : State Inited)
      → w.fails s.calls ≡ none
      → v.interfaces s.calls (sw_interface_dump_at i) ≡ d ∷ ds
      → wait_for_up_link_up v w i s
        ≡ (if d.is_link_up then pure tt else wait_events v w i (w.done s.calls) (w.events s.calls))
            (record s { calls = sw_interface_dump_at i ∷ s.calls })
  unfolding wait_for_up_link_up watch_event watched first_details
  wait_runs i d ds s watch listed = simp watch (simp accepts (simp listed refl))

  up_runs :
      (is_client : Bool) (i : ℕ) (d : SwInterfaceDetails) (ds : List SwInterfaceDetails)
      (s : State Inited)
      → let flagged = sw_interface_set_flags i true ∷ s.calls in
        load is_client s ≡ some i
        → (side is_client s).wait_till_up ≡ some true
        → w.fails flagged ≡ none
        → v.interfaces flagged (sw_interface_dump_at i) ≡ d ∷ ds
        → up v w load is_client s
          ≡ (if d.is_link_up
                then pure tt
                else wait_events v w i (w.done flagged) (w.events flagged))
              (record s { calls = sw_interface_dump_at i ∷ flagged })
  unfolding up up_on Up.load
  up_runs is_client i d ds s stored wait watching listed = simp stored (
      simp accepts (
        simp wait (
          wait_runs i d ds (record s { calls = sw_interface_set_flags i true ∷ s.calls }) watching
            listed)))

  -- VPP refuses nothing, the watcher can be made, and VPP lists the interface that is loaded, whose link
  -- the metadata say to wait for. Then it is set up and listed after the watcher was made, and nothing
  -- else is sent; and either up returns, and the link was listed as up or an event of this interface
  -- with its link up arrived before the context was done, whatever else arrived; or neither
  -- happened, and up fails with the context's error.
  pub up-waits :
      (is_client : Bool) (i : ℕ) (d : SwInterfaceDetails) (ds : List SwInterfaceDetails)
      (s : State Inited)
      → let flagged = sw_interface_set_flags i true ∷ s.calls in
        let t = record s { calls = sw_interface_dump_at i ∷ flagged } in
        load is_client s ≡ some i
        → (side is_client s).wait_till_up ≡ some true
        → w.fails flagged ≡ none
        → v.interfaces flagged (sw_interface_dump_at i) ≡ d ∷ ds
        → (((d.is_link_up ≡ true) ⊎ Memᴰ (interface_event i true) (w.events flagged))
            × (up v w load is_client s ≡ (ok tt, t)))
          ⊎ ((d.is_link_up ≡ false)
              × (Memᴰ (interface_event i true) (w.events flagged) → ⊥)
              × (up v w load is_client s
                  ≡ (err (Error.wrap "provided context is done" (w.done flagged)), t)))
  up-waits is_client i d ds s stored wait watching listed =
      let flagged = sw_interface_set_flags i true ∷ s.calls in
      let t = record s { calls = sw_interface_dump_at i ∷ flagged } in
      waits d.is_link_up (wait_events v w i (w.done flagged) (w.events flagged))
        (up_runs is_client i d ds s stored wait watching listed)
        (wait_events_lem v w i (w.done flagged) t (w.events flagged))
