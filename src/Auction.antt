-- ===== src/Auction.antt =====
-- contracts/exit_auction/src/lib.rs: the life of an exit, which drives the other three contracts.
pub mod Storage
pub mod Frame
pub mod Effects
pub mod Seller
pub mod Bids
pub mod Queries
pub mod Operations
pub mod Exits
pub mod Life
pub mod Closing
pub mod Discount
pub mod Refusing
pub mod Custody
pub mod Waiting
pub mod Pledges
pub mod Backed
pub mod Outbidding
