-- ===== src/Api.antt =====
-- src/tubedepth/api/application.py: the routes, as functions of the rows, the files and the request.
pub mod Cursors
pub mod Listing
pub mod Reading
pub mod Status
pub mod Access
pub mod Results
pub mod Doors
pub mod Submit
pub mod Batches
pub mod Queueing
pub mod Answered
pub mod Control
