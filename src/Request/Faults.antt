-- ===== src/Request/Faults.antt =====
-- request.c: an answer whose first bytes cannot be read from the disk.
use olivehc.Prelude.{◌≡◌, true, false, List, ◌∷◌, some, refl, arith, ◌==◌, sym, subst, Bytes}
use olivehc.Ipbucket.{Handle}
use olivehc.Hash.{HashId}
use olivehc.Http.Response.{http_code_page}
use olivehc.Server.{Blocks, Item, find_item}
use olivehc.Request.State.{get_write_response, Connection, Settings, Site}
use olivehc.Request.Transfer.{file_io_error, FileSend, request_send_file}
use olivehc.Request.Finish.{Inputs, fault, no_page, request_finalize}
use olivehc.Request.Answer.{item_of, with_item, write_response, after_file}
use olivehc.Request.Run.{run, run_handler}

module _ (b : Blocks) (md5 : Bytes → HashId) (settings : Settings) where
  finalize-no_page :
      (k : Inputs) (c : Connection) (s : Site b.D)
      → c.request.http_code ≡ 200
      → c.broken ≡ false
      → c.output_size ≡ 0
      → request_finalize b md5 settings k c s ≡ fault no_page
  unfolding request_finalize http_code_page
  finalize-no_page k c s code whole fresh =
      let no_output : (c.output_size == 0) ≡ true = ground (arith, fresh) in
      rw (whole, no_output, request_finalize, code, http_code_page) refl

  response-no_page :
      (k : Inputs) (c : Connection) (s : Site b.D) (item : Item) (files fs : List FileSend)
      → files ≡ file_io_error ∷ fs
      → c.request.http_code ≡ 200
      → c.broken ≡ false
      → c.output_size ≡ 0
      → write_response b md5 settings (record k { files = files }) c s item ≡ fault no_page
  unfolding write_response after_file request_send_file
  response-no_page k c s item files fs e code whole fresh = rw e (
      finalize-no_page (record k { files = file_io_error ∷ fs }) (record c { disk_error = true }) s
        code whole fresh)

  -- Where the first `sendfile` of a GET's answer with the code 200 fails with EIO, before any
  -- byte went out on a connection that is whole, the program follows the NULL that
  -- `http_code_page` gives for the code 200.
  pub run-no_page :
      (k : Inputs) (c : Connection) (s : Site b.D) (h : Handle) (item : Item) (fs : List FileSend)
      → c.handler ≡ get_write_response
      → c.item ≡ some h
      → find_item s.world.items h ≡ some item
      → c.request.http_code ≡ 200
      → c.broken ≡ false
      → c.output_size ≡ 0
      → k.files ≡ file_io_error ∷ fs
      → run b md5 settings k c s ≡ fault no_page
  unfolding run run_handler with_item
  run-no_page k c s h item fs handler item_is found code whole fresh files =
      let item_now : item_of (record c { queued = false }) s ≡ some item = rw item_is found in
      subst (λ x. run_handler b md5 settings x k (record c { queued = false }) s ≡ fault no_page)
        (sym handler)
        (rw (item_now, with_item)
          (response-no_page k (record c { queued = false }) s item k.files fs files code whole
            fresh))
