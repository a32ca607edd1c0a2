-- ===== src/Main.antt =====
-- src/main.c: how the server is started and watched. What the calls return is an argument, by the number of the
-- round; the texts that main prints and the waits of `_delay` and `_monitor_loop` are left out.
pub mod Watch
mod Tests
use trace_server.Base.{
  ℕ, zero, suc, ◌+◌, Bool, true, false, not, ltb, if◌then◌else◌, Option, none, some,
}
use trace_server.Base.Int.{ℤ, pos, minus_one, ltb_ℤ, is_count}

-- Round `i` of the loop of `_repeat_init` and the next ones: the number at which it ends. `status_ok i` is what
-- `evserver_status_ok` returns at round `i`, `created i` what `_create_server` does there.
unfoldable pub repeat_loop : ℕ → (ℕ → Bool) → (ℕ → Bool) → ℕ → ℕ
repeat_loop zero status_ok created i = i
repeat_loop (suc left) status_ok created i =
    let next : ℕ = repeat_loop left status_ok created (i + 1) in
    if status_ok i then i else if created i then i else next

unfoldable pub repeat_init : (ℕ → Bool) → (ℕ → Bool) → ℕ → Bool
unfolding repeat_loop
repeat_init status_ok created repeat_count =
    ltb (repeat_loop repeat_count status_ok created 0) repeat_count

-- `main` up to its last loop: the code it returns, or `none` if it goes on for ever. With what tpool_create,
-- evserver_tpool_create and pthread_create return; the wait for the threads of the pool is left out.
unfoldable pub start : ℤ → Bool → ℤ → Option ℤ
start tpool_created workers_created monitor_created =
    if ltb_ℤ tpool_created (pos 0)
    then some minus_one
    else if not workers_created
    then some minus_one
    else if not (is_count monitor_created 0)
    then some minus_one
    else none
