-- ===== src/Main/Tests.antt =====
-- Tests of the start of the server.
use trace_server.Base.{◌≡◌, refl, true, false, none, some, ◌==◌}
use trace_server.Base.Int.{pos, minus_one}
use trace_server.Main.{repeat_loop, repeat_init, start}

started :
    (start (pos 0) true (pos 0) ≡ none)
    × (start minus_one true (pos 0) ≡ some minus_one)
    × (start (pos 0) true (pos 11) ≡ some minus_one)
unfolding start
started = (refl, refl, refl)

gives_up : repeat_init (λ i. i == 3) (λ i. false) 3 ≡ false
unfolding repeat_init repeat_loop
gives_up = refl
