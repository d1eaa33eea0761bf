-- ===== src/Scanner/Esplora.antt =====
-- pkg/blockservice: the block service of an Esplora server. The request and its answer are
-- parameters, and so is the parser of blocks.
use neutrino_elements.Prelude.{ℕ, not, List, Result, err, Error, ◌==◌, if◌then◌else◌, ◌>>=◌}
use neutrino_elements.Ledger.{Block}

-- The status, and what reading the body gives.
pub record HttpResponse : Type 0 where
  pub status_code : ℕ
  pub body : Result (List ℕ)

-- `GetBlock`.
unfoldable pub get_block : (ℕ → Result HttpResponse) → (List ℕ → Result Block) → ℕ → Result Block
get_block do_request new_from_buffer hash = do_request hash >>= λ resp.
    if not (resp.status_code == 200)
    then if resp.status_code == 404 then err Error.block_not_found else err Error.unexpected_code
    else (resp.body >>= λ bytes. new_from_buffer bytes)
