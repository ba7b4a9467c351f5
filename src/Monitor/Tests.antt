-- ===== src/Monitor/Tests.antt =====
-- Runs of the model of os_01/lab_06/main.c.
use operating_sys.Base.{◌≡◌, refl, true, arith, if◌then◌else◌}
use operating_sys.Base.Family.{sum_over}
use operating_sys.Monitor.{
  reader_print, writer_load, r_loop, r_announce, r_lock, r_test_writer, r_test_waiting, r_join,
  r_count, r_pass_on, r_unlock, w_loop, w_announce, w_test_writer, w_test_readers, w_wait, w_claim,
  w_count, w_reset, System, pick, Reach, start, later,
}
use operating_sys.Monitor.Counters.{waits_to_read, reads, waits_to_write, holds, counters_exact}

-- Reader 3 comes in while no writer is there.
abbrev reading : (s : System) × Reach 8 s
reading =
    let r0 : Reach 8 _ = later start (pick 3 (omega arith) r_loop) in
    let r1 : Reach 8 _ = later r0 (pick 3 (omega arith) r_announce) in
    let r2 : Reach 8 _ = later r1 (pick 3 (omega arith) (r_lock refl)) in
    let r3 : Reach 8 _ = later r2 (pick 3 (omega arith) r_test_writer) in
    let r4 : Reach 8 _ = later r3 (pick 3 (omega arith) r_test_waiting) in
    let r5 : Reach 8 _ = later r4 (pick 3 (omega arith) r_join) in
    let r6 : Reach 8 _ = later r5 (pick 3 (omega arith) r_count) in
    let r7 : Reach 8 _ = later r6 (pick 3 (omega arith) r_pass_on) in
    let r8 : Reach 8 _ = later r7 (pick 3 (omega arith) r_unlock) in (_, r8)

-- Writer 0 then comes in as well: `can_write` is signalled from the start.
abbrev both : (s : System) × Reach 8 s
both =
    let w0 : Reach 8 _ = later reading.1 (pick 0 (omega arith) w_loop) in
    let w1 : Reach 8 _ = later w0 (pick 0 (omega arith) w_announce) in
    let w2 : Reach 8 _ = later w1 (pick 0 (omega arith) w_test_writer) in
    let w3 : Reach 8 _ = later w2 (pick 0 (omega arith) w_test_readers) in
    let w4 : Reach 8 _ = later w3 (pick 0 (omega arith) (w_wait refl)) in
    let w5 : Reach 8 _ = later w4 (pick 0 (omega arith) w_claim) in
    let w6 : Reach 8 _ = later w5 (pick 0 (omega arith) w_count) in
    let w7 : Reach 8 _ = later w6 (pick 0 (omega arith) w_reset) in (_, w7)

read_and_written :
    (both.0.thread 3 ≡ reader_print)
    × (both.0.thread 0 ≡ writer_load 4)
    × (both.0.shared.active_readers ≡ 1)
    × (both.0.shared.active_writer ≡ true)
read_and_written = (refl, refl, refl, refl)

counters_exact_example :
    (reading.0.shared.waiting_readers ≡ sum_over waits_to_read 8 reading.0.thread)
    × (reading.0.shared.active_readers ≡ sum_over reads 8 reading.0.thread)
    × (reading.0.shared.waiting_writers ≡ sum_over waits_to_write 8 reading.0.thread)
    × (sum_over holds 8 reading.0.thread ≡ (if reading.0.shared.mutex then 0 else 1))
counters_exact_example = counters_exact reading.1
