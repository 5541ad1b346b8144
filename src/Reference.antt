-- ===== src/Reference.antt =====
-- internal/reference: the merge semantics of products and offers.
pub mod Helpers
pub mod Unique
pub mod Keyed
pub mod Collections
pub mod Model
pub mod Offer
pub mod Merging
pub mod Items
pub mod OfferRound
pub mod OfferLaws
pub mod Product
pub mod ProductRound
pub mod ProductLaws
