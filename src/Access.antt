-- ===== src/Access.antt =====
-- apps/access: what a customer who has paid may download. `Model` has the rows, `Users` the accesses
-- of accounts, `Guests` the tokens of guests, `Download` the view that redeems a token.
pub mod Model
pub mod Users
pub mod Guests
pub mod Download
pub mod Tests
