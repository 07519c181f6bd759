-- ===== src/Tests/Tunnels.antt =====
-- A tunnel between two sides that each send some bytes and close.
use socketxx.Common.{ℕ, ◌+◌, ◌≡◌, refl, none, some, List, [], ◌∷◌, ◌++◌, length, arith}
use socketxx.Common.Int.{pos}
use socketxx.Common.Outcome.{Outcome, Finishes, ok, throws, io_error, reading}
use socketxx.BaseIo.{timeout_inf}
use socketxx.Server.{is_set}
use socketxx.Tunnel.{Side, Wiring, do_copy_tunneling, is_connection_closed}
use socketxx.Tunnel.Ends.{RunsDry, RunsOut, Uses, do_copy_tunneling-Finishes}
use socketxx.Tunnel.Flow.{Flow, Carries, Waits, Stays, Took, Ended}
use socketxx.Tunnel.Relay.{do_copy_tunneling-Ended}

-- What a side will send, what has come from it, and what has gone to it.
record Peer : Type 0 where
  coming : List ℕ
  came : List ℕ
  went : List ℕ

abbrev Pair : Type 0
Pair = Peer × Peer

-- One byte, or the result 0 once the side has closed.
abbrev give : List ℕ → List ℕ → List ℕ → Outcome (List ℕ) × Peer
give [] came went =
    (throws (io_error (pos 0) reading 0), record { coming = []; came = came; went = went })
give (b ∷ bs) came went = (ok (b ∷ []), record { coming = bs; came = came ++ b ∷ []; went = went })

abbrev give_one : Peer → Outcome (List ℕ) × Peer
give_one p = give p.coming p.came p.went

abbrev left_side : Side Pair
left_side = record {
  fd = pos 3;
  i = λ n w. ((give_one w.0).0, ((give_one w.0).1, w.1));
  o = λ d w. (ok tt, (record w.0 { went = w.0.went ++ d }, w.1));
}

abbrev right_side : Side Pair
right_side = record {
  fd = pos 4;
  i = λ n w. ((give_one w.1).0, (w.0, (give_one w.1).1));
  o = λ d w. (ok tt, (w.0, record w.1 { went = w.1.went ++ d }));
}

-- Both sides are always ready.
abbrev both_ready : Wiring Pair
both_ready = record { errno = λ w. 0; select = λ n fds tm w. (some (pos 3 ∷ pos 4 ∷ []), w) }

abbrev to_come : Pair → ℕ
to_come w = length w.0.coming + length w.1.coming

left_uses :
    (xs came went : List ℕ) (q : Peer)
    → Uses to_come 1
        (record { coming = xs; came = came; went = went }, q)
        ((give xs came went).0, ((give xs came went).1, q))
left_uses [] came went q = tt
left_uses (x ∷ xs) came went q = omega arith

right_uses :
    (xs came went : List ℕ) (q : Peer)
    → Uses to_come 1
        (q, record { coming = xs; came = came; went = went })
        ((give xs came went).0, (q, (give xs came went).1))
right_uses [] came went q = tt
right_uses (x ∷ xs) came went q = omega arith

unfoldable left_RunsDry : RunsDry to_come left_side
unfolding left_uses
left_RunsDry = record {
  i_uses = λ n w. left_uses w.0.coming w.0.came w.0.went w.1;
  o_uses = λ d w. omega arith;
}

unfoldable right_RunsDry : RunsDry to_come right_side
unfolding right_uses
right_RunsDry = record {
  i_uses = λ n w. right_uses w.1.coming w.1.came w.1.went w.0;
  o_uses = λ d w. omega arith;
}

unfoldable both_RunsOut : RunsOut to_come both_ready (pos 3) (pos 4)
unfolding is_set
both_RunsOut = record { select_answers = λ n fds tm w. (omega arith, refl) }

abbrev greeting : Pair
greeting = (
  record { coming = 1 ∷ 2 ∷ []; came = []; went = [] },
  record { coming = 7 ∷ 8 ∷ 9 ∷ []; came = []; went = [] },
)

do_copy_tunneling-Finishes_example :
    Finishes (do_copy_tunneling both_ready none left_side right_side 6 4096 timeout_inf greeting)
do_copy_tunneling-Finishes_example =
    do_copy_tunneling-Finishes to_come both_ready none left_side right_side tt left_RunsDry
      right_RunsDry both_RunsOut 6 4096 timeout_inf greeting (omega arith)

-- From the left to the right, and back.
abbrev forth : Flow Pair
forth = record { came = λ w. w.0.came; went = λ w. w.1.went }

abbrev back : Flow Pair
back = record { came = λ w. w.1.came; went = λ w. w.0.went }

left_gives :
    (xs came went : List ℕ) (q : Peer)
    → Took forth
        (record { coming = xs; came = came; went = went }, q)
        ((give xs came went).0, ((give xs came went).1, q))
      × Stays back (record { coming = xs; came = came; went = went }, q) ((give xs came went).1, q)
left_gives [] came went q = ((refl, refl), (refl, refl))
left_gives (x ∷ xs) came went q = ((refl, refl), (refl, refl))

right_gives :
    (xs came went : List ℕ) (q : Peer)
    → Took back
        (q, record { coming = xs; came = came; went = went })
        ((give xs came went).0, (q, (give xs came went).1))
      × Stays forth (q, record { coming = xs; came = came; went = went }) (q, (give xs came went).1)
right_gives [] came went q = ((refl, refl), (refl, refl))
right_gives (x ∷ xs) came went q = ((refl, refl), (refl, refl))

unfoldable left_Carries : Carries left_side right_side forth back
unfolding left_gives
left_Carries = record {
  i_takes = λ n w. left_gives w.0.coming w.0.came w.0.went w.1;
  o_puts = λ d w. ((refl, refl), (refl, refl));
}

unfoldable right_Carries : Carries right_side left_side back forth
unfolding right_gives
right_Carries = record {
  i_takes = λ n w. right_gives w.1.coming w.1.came w.1.went w.0;
  o_puts = λ d w. ((refl, refl), (refl, refl));
}

unfoldable ready_Waits : (flow : Flow Pair) → Waits both_ready flow
ready_Waits flow = record { select_stays = λ n fds tm w. (refl, refl) }

do_copy_tunneling-Ended_example :
    Ended forth (do_copy_tunneling both_ready none left_side right_side 6 4096 timeout_inf greeting)
    × Ended back
        (do_copy_tunneling both_ready none left_side right_side 6 4096 timeout_inf greeting)
do_copy_tunneling-Ended_example =
    do_copy_tunneling-Ended both_ready left_Carries right_Carries (ready_Waits forth)
      (ready_Waits back) 6 4096 timeout_inf greeting refl refl

-- Two rounds copy two bytes of each side; in the third the left side is found closed, and the
-- last byte of the right side is not asked for.
tunnel_ends : do_copy_tunneling both_ready none left_side right_side 6 4096 timeout_inf greeting ≡ (
  ok tt,
  (
    record { coming = []; came = 1 ∷ 2 ∷ []; went = 7 ∷ 8 ∷ [] },
    record { coming = 9 ∷ []; came = 7 ∷ 8 ∷ []; went = 1 ∷ 2 ∷ [] },
  ),
)
unfolding do_copy_tunneling is_set is_connection_closed
tunnel_ends = refl
