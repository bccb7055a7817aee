-- ===== src/WriteQueue/Tests.antt =====
-- Runs of the write queue.
use marisa.Prelude.{◌≡◌, refl, true, false, [], ◌∷◌, codes, ok, arith}
use marisa.WriteQueue.{
  Session, new_session, arrange_async_write, write_handler, write_async_promised_impl, arrange,
  handle, Steps, done, step,
}
use marisa.WriteQueue.Order.{
  new_session-IsLive, write_handler-ok, InOrder, IsLive, new_session-InOrder,
}
use marisa.WriteQueue.Stall.{IsStalled, NoProgress, write_handler-IsStalled}

abbrev one_arranged : Session
one_arranged = record {
  queue_write = (codes "a", 1) ∷ [];
  in_flight = 1;
  promises = [];
  close_requested = false;
  started = codes "a" ∷ [];
  arranged = codes "a" ∷ [];
}

abbrev two_arranged : Session
two_arranged = record one_arranged {
  queue_write = (codes "a", 1) ∷ (codes "b", 2) ∷ [];
  arranged = codes "a" ∷ codes "b" ∷ [];
}

abbrev one_written : Session
one_written = record {
  queue_write = (codes "b", 2) ∷ [];
  in_flight = 1;
  promises = (1, false) ∷ [];
  close_requested = false;
  started = codes "a" ∷ codes "b" ∷ [];
  arranged = codes "a" ∷ codes "b" ∷ [];
}

arranged_run : Steps false new_session one_written
unfolding arrange_async_write write_handler write_async_promised_impl
arranged_run =
    step
      (step (step done (arrange {t = one_arranged} (codes "a") 1 refl))
        (arrange {t = two_arranged} (codes "b") 2 refl))
      (handle false (λ e. omega (arith, e)) refl)

new_session-InOrder_example : InOrder one_written
new_session-InOrder_example = new_session-InOrder false one_written arranged_run

new_session-IsLive_example : IsLive one_written
new_session-IsLive_example = new_session-IsLive one_written arranged_run

write_handler-ok_example :
    ((t : Session) × (write_handler true one_written ≡ ok t))
    × ((t : Session) × (arrange_async_write (codes "c") 3 one_written ≡ ok t))
write_handler-ok_example =
    write_handler-ok false true (codes "c") 3 one_written arranged_run (λ e. omega (arith, e))

abbrev first_failed : Session
first_failed = record two_arranged {
  queue_write = (codes "b", 2) ∷ [];
  in_flight = 0;
  promises = (1, true) ∷ [];
  close_requested = true;
}

abbrev third_arranged : Session
third_arranged = record first_failed {
  queue_write = (codes "b", 2) ∷ (codes "c", 3) ∷ [];
  arranged = codes "a" ∷ codes "b" ∷ codes "c" ∷ [];
}

write_handler-IsStalled_example : IsStalled third_arranged × NoProgress first_failed third_arranged
unfolding write_handler arrange_async_write
write_handler-IsStalled_example =
    write_handler-IsStalled false (codes "a", 1) (codes "b", 2) [] two_arranged first_failed
      third_arranged refl refl refl (step done (arrange (codes "c") 3 refl))
