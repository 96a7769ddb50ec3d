-- ===== src/Request/Transfer.antt =====
-- request.c: the sending of a buffer or of a part of an item, and the writing to the disk. What
-- the system calls give is an argument: a list of outcomes, the next one first.
use olivehc.Prelude.{
  ℕ, ◌+◌, ◌-◌, Bool, true, false, Option, none, some, List, [], ◌∷◌, min, ◌==◌, if◌then◌else◌,
}
use olivehc.Ipbucket.{Handle}
use olivehc.Request.State.{Connection}

-- `send`: EINTR, or the number of bytes that were sent is that of the buffer, or it is not.
pub data Send : Type 0 where
  send_interrupted send_whole send_short : Send

-- `sendfile`: EINTR, EIO, another error, or a number of bytes, which is at most what was asked
-- for. EAGAIN is the end of the list.
pub data FileSend : Type 0 where
  file_interrupted file_io_error file_failed : FileSend
  moved : ℕ → FileSend

-- `OHC_OK`, `OHC_AGAIN` and `OHC_ERROR`
pub data Io : Type 0 where
  io_ok io_again io_error : Io

-- `request_send_buffer` of a buffer of a length; the outcomes that are left.
unfoldable pub request_send_buffer : List Send → Connection → ℕ → Bool × List Send × Connection
request_send_buffer [] c length = (false, [], record c { broken = true })
request_send_buffer (send_interrupted ∷ ss) c length = request_send_buffer ss c length
request_send_buffer (send_whole ∷ ss) c length =
    (true, ss, record c { output_size = c.output_size + length })
request_send_buffer (send_short ∷ ss) c length = (false, ss, record c { broken = true })

-- `request_send_file` of a part of the item, from an offset in it on.
unfoldable pub request_send_file :
    List FileSend → Connection → ℕ → ℕ → Io × List FileSend × Connection
request_send_file [] c start length = (io_again, [], c)
request_send_file (file_interrupted ∷ fs) c start length = request_send_file fs c start length
request_send_file (file_io_error ∷ fs) c start length =
    (io_error, fs, record c { disk_error = true })
request_send_file (file_failed ∷ fs) c start length = (io_error, fs, record c { broken = true })
request_send_file (moved m ∷ fs) c start length =
    let n = min m (length - c.process_size) in
    let c' = record c {
      output_size = c.output_size + n;
      process_size = c.process_size + n;
      sent = (start + c.process_size, n) ∷ c.sent;
    } in
    if length == c'.process_size then (io_ok, fs, c') else (io_again, fs, c')

-- The part of `request_write_disk` on the item, or without one.
unfoldable pub write_to : Option Handle → Bool → Connection → ℕ → Bool × Connection
write_to none written_all c length = (true, record c { process_size = c.process_size + length })
write_to (some h) true c length = (
  true,
  record c {
    process_size = c.process_size + length;
    written = (c.process_size, length) ∷ c.written;
  },
)
write_to (some h) false c length =
    (false, record c { request = record c.request { http_code = 500 }; disk_error = true })

-- `request_write_disk` of a length: whether `pwrite` writes it all.
unfoldable pub request_write_disk : Bool → Connection → ℕ → Bool × Connection
unfolding write_to
request_write_disk written_all c length = write_to c.item written_all c length
