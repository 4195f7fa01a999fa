-- ===== src/KqueuePoller/Filters/Tests.antt =====
-- Runs of the kqueue back end.
use chain_socket.Base.{[], ◌∷◌, some, true, false, ◌≡◌, refl, arith}
use chain_socket.Base.Outcome.{done, fault}
use chain_socket.SelectPoller.{Flags}
use chain_socket.KqueuePoller.{
  evfilt_read, evfilt_write, Kevent, KqueuePoller, new_poller, poll_add, poll_mod, poll_del,
  poll_get_events, get_event_triger_flag, change, stored,
}
use chain_socket.KqueuePoller.Filters.{documented, exchanged, get_event_triger_flag-ignores_filter}

abbrev hung_up : Kevent
hung_up = record { filter = evfilt_read; flags = 0x8001; udata = 70 }

abbrev unblocked : Kevent
unblocked = record { filter = evfilt_write; flags = 1; udata = 71 }

abbrev waiting : KqueuePoller
waiting = new_poller 2 (hung_up ∷ unblocked ∷ [])

-- The socket that can only be read is reported as writable, the one that can only be written as
-- readable.
get_event_triger_flag-ignores_filter_example :
    (get_event_triger_flag documented waiting 0
      ≡ done (record { read = true; write = true; once = false }))
    × (get_event_triger_flag documented
          (record waiting { event_list = exchanged (hung_up ∷ unblocked ∷ []) })
          0
        ≡ get_event_triger_flag documented waiting 0)
get_event_triger_flag-ignores_filter_example =
    get_event_triger_flag-ignores_filter waiting 0 hung_up refl (omega arith)

writable_unreported :
    get_event_triger_flag documented waiting 1
    ≡ done (record { read = true; write = false; once = false })
writable_unreported =
    (get_event_triger_flag-ignores_filter waiting 1 unblocked refl (omega arith)).0

abbrev both : Flags
both = record { read = true; write = true; once = false }

abbrev reading : Flags
reading = record { read = true; write = false; once = false }

-- Going back to reading and deleting the socket leave the interest in writing as it was asked for.
never_withdrawn :
    (poll_del (poll_mod (poll_add waiting 5 both 70) 5 reading 70) 5).changes
    ≡ record { ident = 5; filter = evfilt_write; once = false; udata = 70 }
      ∷ record { ident = 5; filter = evfilt_read; once = false; udata = 70 }
      ∷ record { ident = 5; filter = evfilt_read; once = false; udata = 70 }
      ∷ []
unfolding poll_del poll_mod poll_add change
never_withdrawn = refl

overrun : poll_get_events (λ n t. some (hung_up ∷ hung_up ∷ hung_up ∷ [])) waiting 10 ≡ fault
unfolding poll_get_events stored
overrun = refl
