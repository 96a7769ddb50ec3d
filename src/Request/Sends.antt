-- ===== src/Request/Sends.antt =====
-- request.c: what an answer sends of an item, call by call.
use olivehc.Prelude.{
  ℕ, ◌+◌, ◌-◌, ◌≤◌, ◌≡◌, ◌⊎◌, true, List, [], ◌∷◌, ◌==◌, min, arith, refl, Bool-cases, inl, inr,
}
use olivehc.Request.State.{Connection}
use olivehc.Request.Transfer.{
  FileSend, file_interrupted, file_io_error, file_failed, moved, Io, io_ok, io_again, io_error,
  request_send_file,
}
use olivehc.Request.Writes.{Covers}

-- What was sent of the item from `start` on is as long as `process_size`, and lies end to end.
abbrev pub Sent : ℕ → Connection → Type 0
Sent start c = Covers c.sent start (start + c.process_size)

-- How a call for `n` bytes from `start` on ends.
abbrev pub SendEnd : Io → ℕ → Connection → Type 0
SendEnd io_ok n d = d.process_size ≡ n
SendEnd io_again n d = d.process_size ≤ n
SendEnd io_error n d = (d.process_size ≤ n) × ((d.broken ≡ true) ⊎ (d.disk_error ≡ true))

-- The bytes that were sent, as often in `output_size` as in `process_size`.
pub record SendOk (c : Connection) (start n : ℕ) (x : Io × List FileSend × Connection)
    : Type 0 where
  pub sent : Sent start x.2
  pub more : c.process_size ≤ x.2.process_size
  pub output : x.2.output_size + c.process_size ≡ c.output_size + x.2.process_size
  pub end : SendEnd x.0 n x.2

-- A call of `request_send_file` for `n` bytes of an item from `start` on, where the bytes up to
-- `process_size`, at most `n`, have been sent in order, sends on where they end and not beyond
-- `n`, adds to `output_size` what it adds to `process_size`, returns `OHC_OK` only with all `n`
-- bytes sent, and returns an error only with a broken connection or a disk error.
pub send_file-SendOk :
    (fs : List FileSend) (c : Connection) (start n : ℕ)
    → Sent start c
    → c.process_size ≤ n
    → SendOk c start n (request_send_file fs c start n)
unfolding request_send_file
send_file-SendOk [] c start n s l = record { sent = s; more = omega arith; output = refl; end = l }
send_file-SendOk (file_interrupted ∷ fs) c start n s l = send_file-SendOk fs c start n s l
send_file-SendOk (file_io_error ∷ fs) c start n s l = record {
  sent = s;
  more = omega arith;
  output = refl;
  end = (l, inr refl);
}
send_file-SendOk (file_failed ∷ fs) c start n s l = record {
  sent = s;
  more = omega arith;
  output = refl;
  end = (l, inl refl);
}
send_file-SendOk (moved m ∷ fs) c start n s l = elim (Bool-cases (n == d.process_size)) [
  | inl t ↦
      rw (t, request_send_file)
        record {
          sent = (omega arith, s);
          more = omega arith;
          output = omega arith;
          end = ground (arith, t);
        }
  | inr t ↦
      rw (t, request_send_file)
        record { sent = (omega arith, s); more = omega arith; output = omega arith; end = fits }
]
  where
    k : ℕ
    k = min m (n - c.process_size)

    d : Connection
    d = record c {
      output_size = c.output_size + k;
      process_size = c.process_size + k;
      sent = (start + c.process_size, k) ∷ c.sent;
    }

    fits : c.process_size + k ≤ n
    fits = ground (arith, l)
