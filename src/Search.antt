-- ===== src/Search.antt =====
-- backend/app/services/search_service.py and transaction_summary.py: the search over stored
-- transactions. `Query` prepares the text, `Cards` lists the cards, `Summary` adds up the matches,
-- `Cursor` has the signed page links, `Results` and `Listing` the three requests.
pub mod Query
pub mod Cards
pub mod Summary
pub mod Cursor
pub mod Results
pub mod Listing
pub mod Sealed
pub mod Order
pub mod Paging
pub mod Grouped
pub mod Following
pub mod CardPages
