-- ===== src/Programs/Server/Tests.antt =====
-- The server program at concrete histories, and the theorem at one.
use cloudbridge.Common.{◌≡◌, inl, inr, refl, true, false, arith}
use cloudbridge.Programs.Server.{
  State, starting_signal, stopped, returned, waiting, shutting_down, panicked, initial, starts_stun,
  starts_relay, makes_server, listens, fails_signal, stops, returns, signalled, closes_stun,
  closes_relay, shuts_down, Reach, here, next,
}
use cloudbridge.Programs.Server.Shutdown.{IsShut, Reach-IsShut}

abbrev up : State
up = record {
  main = starting_signal;
  closer = waiting;
  stun_open = true;
  relay_open = true;
  failed = false;
}

comes_up : Reach initial up
comes_up = next (next here (starts_stun refl)) (starts_relay refl)

-- The program is at its end while connections are still being shut down.
abbrev cut : State
cut = record {
  main = returned;
  closer = shutting_down;
  stun_open = false;
  relay_open = false;
  failed = false;
}

returns_early : Reach initial cut
returns_early =
    next
      (next
        (next
          (next
            (next
              (next (next (next comes_up (makes_server refl)) (listens refl))
                (signalled (inr (inr (inl refl))) refl))
              (closes_stun (inr (inr (inl refl))) refl))
            (closes_relay (inr (inr (inl refl))) refl))
          (shuts_down (inr (inr (inl refl))) refl))
        (stops (inr refl) (inl refl)))
      (returns refl (λ e. ground (arith, e)))

-- A signal before `Start` has made its server.
panics_early :
    Reach initial (record up { closer = panicked; stun_open = false; relay_open = false })
panics_early =
    next
      (next (next (next comes_up (signalled (inl refl) refl)) (closes_stun (inl refl) refl))
        (closes_relay (inl refl) refl))
      (shuts_down (inl refl) refl)

-- Where the signal server cannot listen, the others run on without it.
goes_on_alone : Reach initial (record up { main = stopped; failed = true })
goes_on_alone = next (next comes_up (makes_server refl)) (fails_signal (inl refl))

Reach-IsShut_example : (false ≡ false) × (false ≡ false) × IsShut shutting_down
Reach-IsShut_example = Reach-IsShut cut returns_early refl refl
