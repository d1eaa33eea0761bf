-- ===== src/Node/Messages/Commands.antt =====
-- The switch of `handlePeerMessages` over the command, by its handlers.
use neutrino_elements.Prelude.{
  ℕ, ◌≡◌, refl, Bool, true, false, List, length, codes, bytes_eq, if◌then◌else◌,
}
use neutrino_elements.Store.Interface.{BlockHeaderRepository, FilterRepository}
use neutrino_elements.Protocol.Network.{Magic}
use neutrino_elements.Protocol.Message.{MessageHeader}
use neutrino_elements.Node.Messages.{Session, Outcome}
use neutrino_elements.Node.Messages.Handlers.{
  Externals, handle_version, handle_verack, handle_ping, handle_pong, handle_inv, handle_tx,
  handle_cfilter, handle_send_cmpct, handle_get_headers, skip_message, answer_headers, answer_block,
  answer_get_cfilters,
}
use neutrino_elements.Node.Messages.Loop.{dispatch}

if_cases {ℓ κ} :
    {A : Type ℓ} (P : A → Type κ) (b : Bool) (x y : A)
    → (b ≡ true → P x)
    → P y
    → P (if b then x else y)
if_cases P true x y f g = f refl
if_cases P false x y f g = g

-- What holds of the handler that any command names.
pub dispatch-All {κ} :
    {Filter S F : Type 0} (lib : Externals Filter) (network : Magic) (id : ℕ)
    (db : BlockHeaderRepository S) (filters_db : FilterRepository F) (headers_at : ℕ → S)
    (filters_at : ℕ → F) (c : List ℕ) (h : MessageHeader) (s : Session) (bs : List ℕ)
    (P : Outcome Filter × List ℕ → Type κ)
    → (bytes_eq c (codes "version") ≡ true → P (handle_version lib network id h s bs))
    → P (handle_verack lib network id h s bs)
    → P (handle_ping lib network id h s bs)
    → P (handle_pong lib network id h s bs)
    → P (handle_inv lib network id h s bs)
    → P (handle_tx lib network id h s bs)
    → P (answer_block lib network id db filters_db (headers_at (length bs)) h s bs)
    → P (handle_send_cmpct lib network id h s bs)
    → P (handle_get_headers lib network id h s bs)
    → P (answer_headers lib network id db filters_db (headers_at (length bs)) h s bs)
    → P (handle_cfilter lib network id h s bs)
    → P (
        answer_get_cfilters lib network id db filters_db
          (headers_at (length bs))
          (filters_at (length bs))
          h
          s
          bs)
    → P (skip_message lib network id h s bs)
    → P (dispatch lib network id db filters_db headers_at filters_at c h s bs)
unfolding dispatch
dispatch-All lib network id db filters_db headers_at filters_at c h s bs P p1 p2 p3 p4 p5 p6 p7 p8
      p9 p10 p11 p12 p13 =
    if_cases P _ _ _ p1 (
      if_cases P _ _ _ (λ e. p2)
        (if_cases P _ _ _ (λ e. p3)
          (if_cases P _ _ _ (λ e. p4)
            (if_cases P _ _ _ (λ e. p5)
              (if_cases P _ _ _ (λ e. p6)
                (if_cases P _ _ _ (λ e. p7)
                  (if_cases P _ _ _ (λ e. p8)
                    (if_cases P _ _ _ (λ e. p9)
                      (if_cases P _ _ _ (λ e. p10)
                        (if_cases P _ _ _ (λ e. p11) (if_cases P _ _ _ (λ e. p12) p13)))))))))))
