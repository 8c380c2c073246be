-- ===== src/Session/Modes/Examples.antt =====
-- The modes at concrete inputs.
use mcpdrill.Prelude.{List, [], ◌∷◌, ◌≡◌, refl, false, none, codes, Str-discrete, arith}
use mcpdrill.Session.Types.{new_session_info, touch}
use mcpdrill.Session.Modes.Heap.{Heap}
use mcpdrill.Session.Modes.Reuse.{
  ReuseMode, new_reuse_mode, acquire_begin, acquire_finish, activate, touch_session, track, create,
  release, invalidate, forget, must_create,
}
use mcpdrill.Session.Modes.Reuse.Histories.{
  Call, begins, creates, finishes, tracks, releases, activates, touches, invalidates, run, step,
  AreAllowed, IsServed, look, look-IsServed,
}

abbrev empty : Heap
empty = record { at = λ r. new_session_info [] false 0 0 0; next = 0 }

-- Two users get sessions, and one gives its session back.
abbrev calls : List Call
calls =
    begins (codes "vu_1")
    ∷ creates (codes "vu_1") (codes "ses_1") 100
    ∷ finishes (codes "vu_1") 0
    ∷ tracks 0
    ∷ creates (codes "vu_2") (codes "ses_2") 110
    ∷ finishes (codes "vu_2") 1
    ∷ releases 0
    ∷ activates 0
    ∷ touches 0 120
    ∷ []

calls-AreAllowed : AreAllowed (new_reuse_mode 1000 500 empty) calls
unfolding new_reuse_mode step acquire_begin acquire_finish create release track new_session_info
    Str-discrete
calls-AreAllowed = (
  tt,
  (
    tt,
    (
      record { made = omega arith; its_user = refl; new_id = refl; still_open = refl },
      (
        tt,
        (
          tt,
          (
            record { made = omega arith; its_user = refl; new_id = refl; still_open = refl },
            (tt, (tt, (tt, tt))),
          ),
        ),
      ),
    ),
  ),
)

abbrev used : ReuseMode
used = run (new_reuse_mode 1000 500 empty) calls

look-IsServed_example : IsServed used (codes "vu_1") 0
unfolding new_reuse_mode run step look acquire_begin acquire_finish create release track
    touch_session activate new_session_info Str-discrete
look-IsServed_example =
    look-IsServed 1000 500 empty calls (codes "vu_1") none 0 calls-AreAllowed tt refl

-- Once it was closed, the user is told to create another.
replaced : acquire_begin (run used (invalidates 0 ∷ [])) (codes "vu_1") ≡ must_create
unfolding new_reuse_mode run step acquire_begin acquire_finish create release track invalidate
    forget touch_session activate touch new_session_info Str-discrete
replaced = refl
