-- ===== src/Loopback/Tests.antt =====
-- Runs of the loopback operations.
use sdk_vpp.Prelude.{◌≡◌, refl, true, false, [], ◌∷◌, arith, List, Bool, ◌++◌}
use sdk_vpp.Prelude.Assoc.{lookup, insert, erase}
use sdk_vpp.Vpp.{Error, create_loopback, delete_loopback}
use sdk_vpp.Exec.{State, ok}
use sdk_vpp.Samples.{willing, fresh}
use sdk_vpp.Loopback.{LoopMap, create_loopback_for, del}
use sdk_vpp.Loopback.Holders.{Member, System, seen_by, after, IsCounted}
use sdk_vpp.Loopback.Refcount.{Reach, here, next, creates, start, newcomer, history-IsCounted}

abbrev idle : State LoopMap
idle = fresh []

created : State LoopMap
created = (create_loopback_for willing "ns" false idle).1

created_calls : created.calls ≡ create_loopback ∷ []
unfolding created create_loopback_for lookup
created_calls = refl

deleted_calls :
    (del {E = Error} willing "ns" false created).1.calls ≡ delete_loopback 7 ∷ create_loopback ∷ []
unfolding created create_loopback_for del lookup insert erase
deleted_calls = refl

abbrev busy : System
busy =
    after [] (newcomer "a") (newcomer "a" ∷ [])
      (create_loopback_for willing "a" true (seen_by (start ("a" ∷ "a" ∷ [])) (newcomer "a"))).1

busy-Reach : Reach willing (start ("a" ∷ "a" ∷ [])) busy
busy-Reach = next here (creates [] (newcomer "a" ∷ []) (newcomer "a") true refl)

history-IsCounted_example :
    IsCounted busy
    × ((pre post : List Member) (m : Member) (c : Bool)
        → busy.members ≡ pre ++ m ∷ post
        → (del {E = Error} willing m.service c (seen_by busy m)).0 ≡ ok tt)
history-IsCounted_example = history-IsCounted willing ("a" ∷ "a" ∷ []) (omega arith) busy-Reach
