-- ===== src/Receipt/Request.antt =====
-- The methods of baskety/internal/receipt/service.go that the API reaches, each with what it is asked.
use baskety.Base.{ℕ, String, Bool, Option, List, [], ◌∷◌}
use baskety.World.{World, M}
use baskety.Inventory.Request.{void}
use baskety.Receipt.Dto.{UpdateScanItemRequest, CommitScanRequest}
use baskety.Receipt.Service

pub data Request : Type 0 where
  upload_scan : ℕ → Option ℕ → String → Bool → Request
  list_scans : Request
  get_scan get_scan_items : ℕ → Request
  update_scan_item : ℕ → ℕ → UpdateScanItemRequest → Request
  commit_scan : ℕ → CommitScanRequest → Request

-- Serve a request of a caller whose household is `h`.
unfoldable pub serve : ℕ → Request → M (Unit {0})
serve h (upload_scan user_id list_id filename image) =
    void (Service.upload_scan h user_id list_id filename image)
serve h list_scans = void (Service.list_scans h)
serve h (get_scan id) = void (Service.get_scan id h)
serve h (get_scan_items id) = void (Service.get_scan_items id h)
serve h (update_scan_item item_id scan_id req) =
    void (Service.update_scan_item item_id scan_id h req)
serve h (commit_scan id req) = void (Service.commit_scan id h req)

-- The requests of callers of whatever households, served one after the other.
unfoldable pub run : List (ℕ × Request) → World → World
run [] w = w
run ((h, req) ∷ reqs) w = run reqs (serve h req w).1
